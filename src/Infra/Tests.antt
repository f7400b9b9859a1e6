-- ===== src/Infra/Tests.antt =====
-- The consumers at a broker that refuses two dials.
use kenshu_elaris_project_st.Base.{String, ◌≡◌, refl, some}
use kenshu_elaris_project_st.Domain.Errors.{ok}
use kenshu_elaris_project_st.Mq.Consumer.{
  RabbitmqConsumer, new_rabbitmq_consumer, declare_queue, bind_queue, usable_channel,
}
use kenshu_elaris_project_st.Mq.Consumer.Ready.{Consumes}
use kenshu_elaris_project_st.Mq.Channel.{open_channel, is_gone}
use kenshu_elaris_project_st.Mq.Connection.{
  new_rabbit_mq_connection, reconnect_locked, open_connection,
}
use kenshu_elaris_project_st.Infra.{Rabbitmq, new_rabbitmq, declare_and_bind_consumer}
use kenshu_elaris_project_st.Infra.Ready.{new_rabbitmq-Consumes}
use kenshu_elaris_project_st.Sample.Net.{amqp, on_net, rabbit}

program : Unit {0}
unfolding new_rabbitmq declare_and_bind_consumer new_rabbit_mq_connection reconnect_locked
    open_connection open_channel is_gone new_rabbitmq_consumer declare_queue bind_queue
    usable_channel
program = tt

abbrev on_queue : String → RabbitmqConsumer
on_queue name = record {
  channel = some 1;
  queue = some name;
  consume_config = rabbit.consumers.cleaning.consume;
}

abbrev three : Rabbitmq
three = record {
  cleaning_consumer = on_queue "cleaning";
  day_change_consumer = on_queue "day";
  hour_change_consumer = on_queue "hour";
}

made_three : (new_rabbitmq amqp rabbit (on_net 2)).0 ≡ ok three
unfolding program
made_three = refl

new_rabbitmq-Consumes_example :
    Consumes amqp rabbit.consumers.cleaning.consume (on_queue "cleaning") (on_net 0)
    × Consumes amqp rabbit.consumers.day_change.consume (on_queue "day") (on_net 0)
    × Consumes amqp rabbit.consumers.hour_change.consume (on_queue "hour") (on_net 0)
new_rabbitmq-Consumes_example =
    new_rabbitmq-Consumes amqp rabbit (on_net 2) three made_three (on_net 0)
