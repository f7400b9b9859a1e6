-- ===== src/Mq/Tests.antt =====
-- A connection to a broker that refuses some dials.
use kenshu_elaris_project_st.Base.{◌≡◌, refl, Option, none, some, List, [], ◌∷◌, ◌++◌, true, false}
use kenshu_elaris_project_st.Domain.Errors.{Error, ok, err}
use kenshu_elaris_project_st.App.World.{World}
use kenshu_elaris_project_st.Mq.Amqp.{Wire}
use kenshu_elaris_project_st.Mq.Connection.{
  reconnect_locked, open_connection, close, connection_closed_error, fresh_connection,
}
use kenshu_elaris_project_st.Mq.Connection.Laws.{
  Dialled, reconnect-Dialled, asks_open, opens, closes, after_uses, close_is_final,
}
use kenshu_elaris_project_st.Sample.Net.{Net, amqp, on_net, dials_counted}
use kenshu_elaris_project_st.Mq.Producer.{RabbitmqProducer, declare_exchange, publish}
use kenshu_elaris_project_st.Mq.Producer.Laws.{
  Message, Records, Published, declare_publish-Published,
}
use kenshu_elaris_project_st.Config.{ExchangeConfig, PublishConfig}
use kenshu_elaris_project_st.Mq.Amqp.{Amqp}
use kenshu_elaris_project_st.Sample.Net.{rabbit}

program : Unit {0}
unfolding reconnect_locked open_connection close
program = tt

reconnect_runs :
    ((reconnect_locked amqp (on_net 4)).0 ≡ none)
    × ((reconnect_locked amqp (on_net 4)).1.ext.outside.dials ≡ 5)
    × ((reconnect_locked amqp (on_net 5)).1.ext.connection.conn ≡ none)
    × ((reconnect_locked amqp (on_net 9)).1.ext.outside.dials ≡ 5)
unfolding program
reconnect_runs = (refl, refl, refl, refl)

reconnect-Dialled_example :
    Dialled amqp dials_counted 5 none (on_net 4) (reconnect_locked amqp (on_net 4))
reconnect-Dialled_example = reconnect-Dialled amqp dials_counted (on_net 4) refl

abbrev opened_net : World (Wire Net)
opened_net = (open_connection amqp (on_net 0)).1

abbrev later : World (Wire Net)
later = after_uses amqp (opens ∷ asks_open ∷ closes ∷ []) (close amqp opened_net).1

close_is_final_example :
    (later.ext.outside.dials ≡ opened_net.ext.outside.dials)
    × ((open_connection amqp later).0 ≡ err connection_closed_error)
close_is_final_example =
    close_is_final amqp dials_counted (opens ∷ asks_open ∷ closes ∷ []) opened_net

-- A broker that keeps what it gets.
abbrev post : Amqp (List Message)
post = record {
  dial = λ uri x. (ok 7, x);
  sleep = λ x. (tt, x);
  connection_closed = λ conn x. (false, x);
  close_connection = λ conn x. (none, x);
  channel = λ conn x. (ok 1, x);
  channel_closed = λ ch x. (true, x);
  close_channel = λ ch x. (none, x);
  queue_declare = λ ch config x. (ok config.name, x);
  queue_bind = λ ch queue routing_key exchange no_wait x. (none, x);
  consume_with_context = λ ch queue config x. (ok 2, x);
  exchange_declare = λ ch name kind config x. (none, x);
  publish_with_context = λ ch exchange routing_key config message x. (
    none,
    x
        ++ record {
          exchange = exchange;
          routing_key = routing_key;
          config = config;
          message = message;
        }
          ∷ [],
  );
}

post_records : Records post (λ x. x)
post_records = record {
  by_channel = record {
    by_open = record {
      dial_keeps = λ uri x. refl;
      sleep_keeps = λ x. refl;
      connection_closed_keeps = λ conn x. refl;
    };
    channel_keeps = λ conn x. refl;
    channel_closed_keeps = λ ch x. refl;
  };
  declare_keeps = λ ch name kind config x. refl;
  publish_records = λ ch exchange routing_key config message x. refl;
}

abbrev to_all : PublishConfig
to_all = record { mandatory = false; is_immediate = false }

abbrev producer : RabbitmqProducer
producer = record {
  channel = some 1;
  exchange_name = "";
  exchange_kind = "";
  publish_config = to_all;
}

abbrev hotel : ExchangeConfig
hotel = record {
  name = "hotel";
  kind = "";
  durable = true;
  auto_delete = false;
  is_internal = false;
  no_wait = false;
}

abbrev post_office : World (Wire (List Message))
post_office = record {
  ext = record { connection = fresh_connection rabbit; outside = [] };
  cleanings = [];
  washes = [];
  restocks = [];
  settled = [];
  log = [];
}

abbrev declared_hotel : (Option Error × RabbitmqProducer) × World (Wire (List Message))
declared_hotel = declare_exchange post producer hotel post_office

declare_publish-Published_example :
    let (q, z) = publish post (λ n. ok (n ∷ [])) declared_hotel.0.1 5 "key" declared_hotel.1 in
    Published post post_records "hotel" to_all "key" (ok (5 ∷ [])) [] q.0 z.ext.outside
declare_publish-Published_example =
    declare_publish-Published post post_records (λ n. ok (n ∷ [])) producer hotel 5 "key"
      post_office
