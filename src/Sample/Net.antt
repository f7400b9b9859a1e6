-- ===== src/Sample/Net.antt =====
-- The libraries of the program over a small network: the broker refuses the first dials, the rest
-- answers, and what is closed is written down.
use kenshu_elaris_project_st.Base.{
  ℕ, zero, suc, ◌-◌, pos, String, true, false, ◌≡◌, refl, Option, none, some, List, [], ◌∷◌, ◌++◌,
}
use kenshu_elaris_project_st.Domain.Errors.{Error, Result, ok, err, plain}
use kenshu_elaris_project_st.Config.{
  Configs, AppConfig, MongoConfig, RabbitMqConfig, ServicesConfig, ConsumerConfig, Secret,
}
use kenshu_elaris_project_st.Mdb.Bson.{Collection, no_documents}
use kenshu_elaris_project_st.Mdb.Client.{Driver}
use kenshu_elaris_project_st.Mdb.Client.Laws.{CountsClients}
use kenshu_elaris_project_st.Mq.Amqp.{Amqp, Wire}
use kenshu_elaris_project_st.Mq.Connection.{fresh_connection}
use kenshu_elaris_project_st.Mq.Connection.Laws.{CountsDials}
use kenshu_elaris_project_st.Infra.Clock.{Grpc}
use kenshu_elaris_project_st.Infra.Telemetry.{Otel}
use kenshu_elaris_project_st.Main.{Outside}
use kenshu_elaris_project_st.Main.Shutdown.{
  Part, tracer, meter, database_client, clock_connection, server, Records,
}
use kenshu_elaris_project_st.App.World.{World}

pub record Net : Type 0 where
  pub dials : ℕ
  -- How many dials fail from now on.
  pub refusals : ℕ
  pub clients : ℕ
  pub parts : List Part

abbrev dial : Net → Result ℕ × Net
dial x = elim x.refusals [
  | zero ↦ (ok 7, record x { dials = suc x.dials })
  | suc n ↦ (err (plain "refused"), record x { dials = suc x.dials; refusals = n })
]

abbrev close_part : Part → Option Error → Net → Option Error × Net
close_part part e x = (e, record x { parts = x.parts ++ part ∷ [] })

abbrev pub amqp : Amqp Net
amqp = record {
  dial = λ uri. dial;
  sleep = λ x. (tt, x);
  connection_closed = λ conn x. (false, x);
  close_connection = λ conn x. (none, x);
  channel = λ conn x. (ok 1, x);
  channel_closed = λ ch x. (false, x);
  close_channel = λ ch x. (some (plain "gone"), x);
  queue_declare = λ ch config x. (ok config.name, x);
  queue_bind = λ ch queue routing_key exchange no_wait x. (none, x);
  consume_with_context = λ ch queue config x. (ok 2, x);
  exchange_declare = λ ch name kind config x. (none, x);
  publish_with_context = λ ch exchange routing_key config message x. (none, x);
}

abbrev pub driver : Driver Net
driver = record {
  connect = λ options x. (ok 3, record x { clients = suc x.clients });
  ping = λ client x. (none, x);
  disconnect = λ client x.
      (none, record x { clients = x.clients - 1; parts = x.parts ++ database_client ∷ [] });
}

abbrev pub otel : Otel Net
otel = record {
  new_resource = λ name x. (ok 0, x);
  new_trace_exporter = λ options x. (ok 0, x);
  new_tracer_provider = λ exporter resource x. (0, x);
  new_metric_exporter = λ options x. (ok 0, x);
  new_meter_provider = λ exporter resource x. (0, x);
  set_globals = λ t m x. (tt, x);
  instrument = λ kind name x. (none, x);
  shutdown_tracer = λ p. close_part tracer (some (plain "late"));
  shutdown_meter = λ p. close_part meter none;
  join = λ es. plain "late";
}

abbrev pub grpc : Grpc Net
grpc = record {
  new_client = λ target x. (ok 4, x);
  now = λ conn x. (ok none, x);
  close = λ conn. close_part clock_connection none;
}

abbrev secret : String → Secret
secret s = record { value = s }

abbrev consumer : String → ConsumerConfig
consumer name = record {
  queue = record {
    name = name;
    durable = true;
    auto_delete = false;
    exclusive = false;
    no_wait = false;
  };
  binding = record { exchange_name = "hotel"; routing_key = name; no_wait = false };
  consume = record {
    consumer = "";
    auto_ack = false;
    exclusive = false;
    no_local = false;
    no_wait = false;
  };
}

abbrev pub rabbit : RabbitMqConfig
rabbit = record {
  username = secret "guest";
  password = secret "guest";
  host = "localhost";
  port = pos 5672;
  consumers = record {
    cleaning = consumer "cleaning";
    day_change = consumer "day";
    hour_change = consumer "hour";
  };
}

abbrev pub mongo : MongoConfig
mongo = record {
  conn = record {
    username = secret "root";
    password = secret "pass";
    host = "localhost:27017";
    database = "hotel";
    replica_set = "";
    connection_timeout_in_seconds = pos 10;
    server_selection_timeout_in_seconds = pos 10;
    ping_timeout_in_seconds = pos 5;
    startup_timeout_in_seconds = pos 30;
    max_conn_idle_time_in_seconds = pos 300;
    max_pool_size = 50;
    min_pool_size = 5;
    retry_writes = true;
  };
  collections = record { cottage = "Cottage"; stock = "Stock" };
}

abbrev app : AppConfig
app = record {
  name = record { service_name = "staff"; version = "1" };
  server = record {
    host = "localhost";
    port = pos 8080;
    read_header_timeout_in_seconds = pos 5;
    read_timeout_in_seconds = pos 5;
    write_timeout_in_seconds = pos 5;
    idle_timeout_in_seconds = pos 5;
  };
  log = record { level = pos 0 };
  telemetry = record {
    otlp_endpoint = "localhost";
    otlp_grpc_port = pos 4317;
    otlp_health_port = pos 13133;
    otlp_insecure = true;
  };
  employees = record { housekeepers = "Ann" ∷ []; launderers = "Bob" ∷ []; stockers = "Cy" ∷ [] };
}

abbrev services : ServicesConfig
services = record { clock_simulator = record { grpc_host = "localhost"; grpc_port = pos 50051 } }

abbrev pub configs : Configs
configs = record {
  app_config = app;
  mongo_config = mongo;
  rabbit_mq_config = rabbit;
  services = services;
}

abbrev pub no_collection : Collection Net
no_collection = record {
  find_one = λ filter x. (no_documents, x);
  update_one = λ filter update x. (ok (record { matched_count = 0; modified_count = 0 }), x);
}

abbrev pub outside : Outside Net
outside = record {
  parse = λ x. (ok configs, x);
  otel = otel;
  driver = driver;
  collection = λ database name. no_collection;
  decode = λ document. err (plain "no document");
  amqp = amqp;
  grpc = grpc;
  serve = λ staff w. (tt, w);
  shutdown_server = λ s. close_part server none;
}

-- A network that refuses some dials, and a connection that is made there.
abbrev pub net : ℕ → Net
net refusals = record { dials = 0; refusals = refusals; clients = 0; parts = [] }

abbrev pub on_net : ℕ → World (Wire Net)
on_net refusals = record {
  ext = record { connection = fresh_connection rabbit; outside = net refusals };
  cleanings = [];
  washes = [];
  restocks = [];
  settled = [];
  log = [];
}

dial-counts :
    (refusals dials clients : ℕ) (parts : List Part)
    → (dial
        (record { dials = dials; refusals = refusals; clients = clients; parts = parts })).1.dials
      ≡ suc dials
dial-counts zero dials clients parts = refl
dial-counts (suc n) dials clients parts = refl

pub dials_counted : CountsDials amqp (λ x. x.dials)
dials_counted = record {
  dial_counts = λ uri x. dial-counts x.refusals x.dials x.clients x.parts;
  sleep_keeps = λ x. refl;
  kept_by_close = record { closed_keeps = λ conn x. refl; close_keeps = λ conn x. refl };
}

pub clients_counted : CountsClients driver (λ x. x.clients)
clients_counted = record {
  connect_counts = λ options x. refl;
  ping_keeps = λ client x. refl;
  disconnect_counts = λ client x. refl;
}

pub parts_recorded : Records outside (λ x. x.parts)
parts_recorded = record {
  of_tracer = λ p x. refl;
  of_meter = λ p x. refl;
  of_database = λ client x. refl;
  of_clock = λ conn x. refl;
  of_server = λ s x. refl;
  by_close = record { closed_keeps = λ conn x. refl; close_keeps = λ conn x. refl };
  by_close_channel = record {
    channel_closed_keeps = λ ch x. refl;
    close_channel_keeps = λ ch x. refl;
  };
}
