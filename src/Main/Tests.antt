-- ===== src/Main/Tests.antt =====
-- A run of the program over the sample network.
use kenshu_elaris_project_st.Base.{◌≡◌, refl}
use kenshu_elaris_project_st.Config.{load_configs}
use kenshu_elaris_project_st.Mq.Consumer.{
  new_rabbitmq_consumer, declare_queue, bind_queue, usable_channel,
}
use kenshu_elaris_project_st.Mq.Channel.{open_channel, is_gone}
use kenshu_elaris_project_st.Mq.Connection.{
  new_rabbit_mq_connection, reconnect_locked, open_connection,
}
use kenshu_elaris_project_st.Mdb.Client.{new_mongo_db}
use kenshu_elaris_project_st.Validation.{validate, not_zero_value, positive_value}
use kenshu_elaris_project_st.App.Employee.{new_service}
use kenshu_elaris_project_st.App.Services.{new_services}
use kenshu_elaris_project_st.Infra.{new_rabbitmq, declare_and_bind_consumer}
use kenshu_elaris_project_st.Infra.Database.{open_repositories}
use kenshu_elaris_project_st.Infra.Clock.{new_clock_client}
use kenshu_elaris_project_st.Infra.Telemetry.{
  init, init_metrics, new_trace_provider, new_meter_provider,
}
use kenshu_elaris_project_st.Main.{main, run}
use kenshu_elaris_project_st.Main.Released.{Released, main-Released}
use kenshu_elaris_project_st.Sample.Net.{outside, on_net, parts_recorded}

program : Unit {0}
unfolding main run load_configs new_rabbitmq declare_and_bind_consumer new_rabbit_mq_connection
    reconnect_locked open_connection open_channel is_gone new_rabbitmq_consumer declare_queue
    bind_queue usable_channel new_mongo_db open_repositories new_clock_client init init_metrics
    new_trace_provider new_meter_provider new_services validate not_zero_value positive_value
    new_service
program = tt

ends_well : (main outside (on_net 1)).0 ≡ 0
unfolding program
ends_well = refl

ends_badly : (main outside (on_net 5)).0 ≡ 1
unfolding program
ends_badly = refl

main-Released_example : Released outside parts_recorded (main outside (on_net 1)).1
main-Released_example = main-Released outside parts_recorded (on_net 1) ends_well
