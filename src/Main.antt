-- ===== src/Main.antt =====
-- internal/main.go: the start, and the shutdown. `Outside` has the libraries, and what the program
-- does between the start of the services and the signal to end.
pub mod Shutdown
pub mod Released
mod Tests
use kenshu_elaris_project_st.Base.{ℕ, String, Option, none, some, List, ◌++◌}
use kenshu_elaris_project_st.Domain.Errors.{Error, Result, ok, err}
use kenshu_elaris_project_st.Domain.Documents.{Stock}
use kenshu_elaris_project_st.Config.{Configs, load_configs}
use kenshu_elaris_project_st.Port.{StockRepo, CottageRepo}
use kenshu_elaris_project_st.Mdb.Bson.{Document, Collection}
use kenshu_elaris_project_st.Mdb.Client.{Driver}
use kenshu_elaris_project_st.Mdb.Client as database
use kenshu_elaris_project_st.Mq.Amqp.{Amqp, Wire, library}
use kenshu_elaris_project_st.Mq.Connection.{close}
use kenshu_elaris_project_st.Mq.Channel.{close_channel}
use kenshu_elaris_project_st.Mq.Consumer.{RabbitmqConsumer}
use kenshu_elaris_project_st.Infra.{Rabbitmq, new_rabbitmq}
use kenshu_elaris_project_st.Infra.Database.{Mongo, open_repositories}
use kenshu_elaris_project_st.Infra.Clock.{Grpc, new_clock_client}
use kenshu_elaris_project_st.Infra.Clock as clock
use kenshu_elaris_project_st.Infra.Telemetry.{Otel, Providers}
use kenshu_elaris_project_st.Infra.Telemetry as telemetry
use kenshu_elaris_project_st.Transport.{HttpServer, start_http_server}
use kenshu_elaris_project_st.App.World.{
  Entry, info, failure, World, Action, ◌>>=◌, ◌>>◌, skip, pure, write,
}
use kenshu_elaris_project_st.App.Services.{
  Dependency, present, Made, made, refused, panic, Services, new_services,
}

-- The services over the clients that the program makes.
abbrev pub Staff : Type 0 → Type 0
Staff D = Services ℕ (CottageRepo D) (StockRepo D) RabbitmqConsumer

pub record Outside (D : Type 0) : Type 0 where
  pub parse : D → Result Configs × D
  pub otel : Otel D
  pub driver : Driver D
  pub collection : (database name : String) → Collection D
  pub decode : Document → Result Stock
  pub amqp : Amqp D
  pub grpc : Grpc D
  -- `services.Start` and the wait for the signal.
  pub serve : Staff D → Action (Wire D) (Unit {0})
  -- `Shutdown` of the server.
  pub shutdown_server : HttpServer → D → Option Error × D

-- What the program holds while it serves.
pub record Held (D : Type 0) : Type 0 where
  pub providers : Providers
  pub mongo : Mongo D
  pub rabbitmq : Rabbitmq
  pub clock_client : ℕ
  pub http_server : HttpServer

-- How `run` ends: it answers nil or an error, or panics.
pub data Finish : Type 0 where
  finished : Finish
  failed : Error → Finish
  panicked : Finish

abbrev pub holding : {D : Type 0} → Configs → Providers → Mongo D → Rabbitmq → ℕ → Held D
holding configs providers mongo rabbitmq clock_client = record {
  providers = providers;
  mongo = mongo;
  rabbitmq = rabbitmq;
  clock_client = clock_client;
  http_server = start_http_server configs.app_config;
}

module _ {D : Type 0} (o : Outside D) where
  logged : String → Option Error → Action (Wire D) (Unit {0})
  logged message none = skip
  logged message (some e) = write (failure message e)

  -- `if err := ...; err != nil { slog.ErrorContext(...) }`.
  attempt : String → Action (Wire D) (Option Error) → Action (Wire D) (Unit {0})
  unfolding logged
  attempt message act = act >>= logged message

  -- The statements of `shutdown`.
  end_telemetry : Held D → Action (Wire D) (Unit {0})
  unfolding attempt
  end_telemetry h =
      attempt "failed to shutdown telemetry" (library (telemetry.shutdown o.otel h.providers))

  end_mongo : Held D → Action (Wire D) (Unit {0})
  unfolding attempt
  end_mongo h =
      attempt "failed to close mongo connection"
        (library (database.close o.driver h.mongo.connection))

  end_hour_change : Held D → Action (Wire D) (Unit {0})
  unfolding attempt
  end_hour_change h =
      attempt "failed to close hour change consumer channel"
        (close_channel o.amqp h.rabbitmq.hour_change_consumer.channel)

  end_day_change : Held D → Action (Wire D) (Unit {0})
  unfolding attempt
  end_day_change h =
      attempt "failed to close day change consumer channel"
        (close_channel o.amqp h.rabbitmq.day_change_consumer.channel)

  end_cleaning : Held D → Action (Wire D) (Unit {0})
  unfolding attempt
  end_cleaning h =
      attempt "failed to close cleaning consumer channel"
        (close_channel o.amqp h.rabbitmq.cleaning_consumer.channel)

  end_rabbitmq : Held D → Action (Wire D) (Unit {0})
  unfolding attempt
  end_rabbitmq h = attempt "failed to close rabbitmq connection" (close o.amqp)

  end_clock : Held D → Action (Wire D) (Unit {0})
  unfolding attempt
  end_clock h = attempt "failed to close clock client" (library (clock.close o.grpc h.clock_client))

  end_server : Held D → Action (Wire D) (Unit {0})
  unfolding attempt
  end_server h = attempt "failed to close http server" (library (o.shutdown_server h.http_server))

  -- The statements above, in their order.
  unfoldable pub shutdown : Held D → Action (Wire D) (Unit {0})
  unfolding end_telemetry end_mongo end_hour_change end_day_change end_cleaning end_rabbitmq
      end_clock end_server
  shutdown h = do
    end_telemetry h
    end_mongo h
    end_hour_change h
    end_day_change h
    end_cleaning h
    end_rabbitmq h
    end_clock h
    end_server h

  or_return : {A : Type 0} → (A → Action (Wire D) Finish) → Result A → Action (Wire D) Finish
  or_return rest (ok x) w = rest x w
  or_return rest (err e) w = (failed e, w)

  served : Held D → Made (Staff D) → Action (Wire D) Finish
  unfolding shutdown
  served h (made services) = do
    o.serve services
    write (info "shutdown signal received")
    shutdown h
    pure finished
  served h (refused e) = pure (failed e)
  served h panic = pure panicked

  with_clients : Configs → Providers → Mongo D → Rabbitmq → ℕ → Action (Wire D) Finish
  unfolding served
  with_clients configs providers mongo rabbitmq clock_client =
      served (holding configs providers mongo rabbitmq clock_client) (
        new_services configs.app_config.employees (present mongo.cottages) (present mongo.stocks)
          (present rabbitmq.hour_change_consumer) (present rabbitmq.day_change_consumer)
          (present rabbitmq.cleaning_consumer) (present clock_client))

  with_rabbitmq : Configs → Providers → Mongo D → Rabbitmq → Action (Wire D) Finish
  unfolding or_return with_clients
  with_rabbitmq configs providers mongo rabbitmq =
      library (new_clock_client o.grpc configs.services)
      >>= or_return (with_clients configs providers mongo rabbitmq)

  with_mongo : Configs → Providers → Mongo D → Action (Wire D) Finish
  unfolding with_rabbitmq
  with_mongo configs providers mongo =
      new_rabbitmq o.amqp configs.rabbit_mq_config
      >>= or_return (with_rabbitmq configs providers mongo)

  with_telemetry : Configs → Providers → Action (Wire D) Finish
  unfolding with_mongo
  with_telemetry configs providers =
      library (open_repositories o.driver o.collection o.decode configs.mongo_config)
      >>= or_return (with_mongo configs providers)

  with_configs : Configs → Action (Wire D) Finish
  unfolding with_telemetry
  with_configs configs =
      write (info "staff simulator starting")
      >> (telemetry.init o.otel configs.app_config >>= or_return (with_telemetry configs))

  -- What `LoadConfigs` logs goes to the logger that is there before `NewLogger`.
  loaded : Result Configs × List Entry → Action (Wire D) (Result Configs)
  loaded (r, lines) w = (r, record w { log = w.log ++ lines })

  unfoldable pub run : Action (Wire D) Finish
  unfolding or_return with_configs loaded
  run = library o.parse >>= λ r. (loaded (load_configs r) >>= or_return with_configs)

  -- The status with which the process ends; a panic ends it with 2.
  ended : Finish → Action (Wire D) ℕ
  ended finished w = (0, w)
  ended (failed e) w = (1, (write (failure "staff simulator failed" e) w).1)
  ended panicked w = (2, w)

  -- `main`.
  unfoldable pub main : Action (Wire D) ℕ
  unfolding run ended
  main = run >>= ended
