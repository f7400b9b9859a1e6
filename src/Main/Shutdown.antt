-- ===== src/Main/Shutdown.antt =====
-- What the shutdown closes.
use kenshu_elaris_project_st.Base.{
  ℕ, String, Bool, true, ◌≡◌, refl, ap, ◌∙◌, Option, none, some, List, [], ◌∷◌, ◌++◌,
}
use kenshu_elaris_project_st.Domain.Errors.{Error}
use kenshu_elaris_project_st.App.World.{World, Action}
use kenshu_elaris_project_st.Mq.Amqp.{Wire, library}
use kenshu_elaris_project_st.Mq.Connection.{close}
use kenshu_elaris_project_st.Mq.Connection.Laws.{KeptByClose, close-Shut}
use kenshu_elaris_project_st.Mq.Channel.{close_channel}
use kenshu_elaris_project_st.Mq.Channel.Laws.{KeptByCloseChannel, close_channel-kept}
use kenshu_elaris_project_st.Mdb.Client as database
use kenshu_elaris_project_st.Infra.Clock as clock
use kenshu_elaris_project_st.Infra.Telemetry as telemetry
use kenshu_elaris_project_st.Transport.{HttpServer}
use kenshu_elaris_project_st.Main.{
  Outside, Held, logged, attempt, shutdown, end_telemetry, end_mongo, end_hour_change,
  end_day_change, end_cleaning, end_rabbitmq, end_clock, end_server,
}

-- What is closed by a call that nothing guards.
pub data Part : Type 0 where
  tracer : Part
  meter : Part
  database_client : Part
  clock_connection : Part
  server : Part

-- `closes` lists the calls that close such a part, oldest first.
pub record Records {D : Type 0} (o : Outside D) (closes : D → List Part) : Type 0 where
  pub of_tracer : (p : ℕ) (x : D) → closes (o.otel.shutdown_tracer p x).1 ≡ closes x ++ tracer ∷ []
  pub of_meter : (p : ℕ) (x : D) → closes (o.otel.shutdown_meter p x).1 ≡ closes x ++ meter ∷ []
  pub of_database :
      (client : ℕ) (x : D)
      → closes (o.driver.disconnect client x).1 ≡ closes x ++ database_client ∷ []
  pub of_clock :
      (conn : ℕ) (x : D) → closes (o.grpc.close conn x).1 ≡ closes x ++ clock_connection ∷ []
  pub of_server :
      (s : HttpServer) (x : D) → closes (o.shutdown_server s x).1 ≡ closes x ++ server ∷ []
  pub by_close : KeptByClose o.amqp closes
  pub by_close_channel : KeptByCloseChannel o.amqp closes

abbrev pub all_parts : List Part
all_parts = tracer ∷ meter ∷ database_client ∷ clock_connection ∷ server ∷ []

one_by_one :
    (xs : List Part)
    → ((((xs ++ tracer ∷ []) ++ meter ∷ []) ++ database_client ∷ []) ++ clock_connection ∷ [])
        ++ server ∷ []
      ≡ xs ++ all_parts
one_by_one [] = refl
one_by_one (x ∷ xs) = ap (λ ys. x ∷ ys) (one_by_one xs)

module _ {D : Type 0} (o : Outside D) where
  logged-ext :
      (message : String) (e : Option Error) (w : World (Wire D))
      → (logged o message e w).1.ext ≡ w.ext
  unfolding logged
  logged-ext message none w = refl
  logged-ext message (some e) w = refl

  attempt-ext :
      (message : String) (act : Action (Wire D) (Option Error)) (w : World (Wire D))
      → (attempt o message act w).1.ext ≡ (act w).1.ext
  unfolding attempt
  attempt-ext message act w = logged-ext message (act w).0 (act w).1

  module _ {closes : D → List Part} (r : Records o closes) where
    abbrev marked : Wire D → Bool
    marked ext = ext.connection.closed

    abbrev closed : Wire D → List Part
    closed ext = closes ext.outside

    providers-closed :
        (p : telemetry.Providers) (x : D)
        → closes (telemetry.shutdown o.otel p x).1 ≡ (closes x ++ tracer ∷ []) ++ meter ∷ []
    unfolding telemetry.shutdown
    providers-closed p x =
        r.of_meter p.meter_provider (o.otel.shutdown_tracer p.trace_provider x).1
        ∙ ap (λ ys. ys ++ meter ∷ []) (r.of_tracer p.trace_provider x)

    telemetry-closed :
        (h : Held D) (w : World (Wire D))
        → closed (end_telemetry o h w).1.ext ≡ (closes w.ext.outside ++ tracer ∷ []) ++ meter ∷ []
    unfolding end_telemetry
    telemetry-closed h w =
        ap closed (
          attempt-ext "failed to shutdown telemetry"
            (library (telemetry.shutdown o.otel h.providers)) w)
        ∙ providers-closed h.providers w.ext.outside

    mongo-closed :
        (h : Held D) (w : World (Wire D))
        → closed (end_mongo o h w).1.ext ≡ closes w.ext.outside ++ database_client ∷ []
    unfolding end_mongo database.close
    mongo-closed h w =
        ap closed (
          attempt-ext "failed to close mongo connection"
            (library (database.close o.driver h.mongo.connection)) w)
        ∙ r.of_database h.mongo.connection.client w.ext.outside

    hour_change-closed :
        (h : Held D) (w : World (Wire D))
        → closed (end_hour_change o h w).1.ext ≡ closes w.ext.outside
    unfolding end_hour_change
    hour_change-closed h w =
        ap closed (
          attempt-ext "failed to close hour change consumer channel"
            (close_channel o.amqp h.rabbitmq.hour_change_consumer.channel) w)
        ∙ close_channel-kept o.amqp r.by_close_channel h.rabbitmq.hour_change_consumer.channel w

    day_change-closed :
        (h : Held D) (w : World (Wire D))
        → closed (end_day_change o h w).1.ext ≡ closes w.ext.outside
    unfolding end_day_change
    day_change-closed h w =
        ap closed (
          attempt-ext "failed to close day change consumer channel"
            (close_channel o.amqp h.rabbitmq.day_change_consumer.channel) w)
        ∙ close_channel-kept o.amqp r.by_close_channel h.rabbitmq.day_change_consumer.channel w

    cleaning-closed :
        (h : Held D) (w : World (Wire D)) → closed (end_cleaning o h w).1.ext ≡ closes w.ext.outside
    unfolding end_cleaning
    cleaning-closed h w =
        ap closed (
          attempt-ext "failed to close cleaning consumer channel"
            (close_channel o.amqp h.rabbitmq.cleaning_consumer.channel) w)
        ∙ close_channel-kept o.amqp r.by_close_channel h.rabbitmq.cleaning_consumer.channel w

    rabbitmq-closed :
        (h : Held D) (w : World (Wire D)) → closed (end_rabbitmq o h w).1.ext ≡ closes w.ext.outside
    unfolding end_rabbitmq
    rabbitmq-closed h w =
        ap closed (attempt-ext "failed to close rabbitmq connection" (close o.amqp) w)
        ∙ (close-Shut o.amqp r.by_close w w refl).1

    clock-closed :
        (h : Held D) (w : World (Wire D))
        → closed (end_clock o h w).1.ext ≡ closes w.ext.outside ++ clock_connection ∷ []
    unfolding end_clock clock.close
    clock-closed h w =
        ap closed (
          attempt-ext "failed to close clock client" (library (clock.close o.grpc h.clock_client))
            w)
        ∙ r.of_clock h.clock_client w.ext.outside

    server-closed :
        (h : Held D) (w : World (Wire D))
        → closed (end_server o h w).1.ext ≡ closes w.ext.outside ++ server ∷ []
    unfolding end_server
    server-closed h w =
        ap closed
          (attempt-ext "failed to close http server" (library (o.shutdown_server h.http_server)) w)
        ∙ r.of_server h.http_server w.ext.outside

    rabbitmq-marked :
        (h : Held D) (w : World (Wire D)) → (end_rabbitmq o h w).1.ext.connection.closed ≡ true
    unfolding end_rabbitmq
    rabbitmq-marked h w =
        ap marked (attempt-ext "failed to close rabbitmq connection" (close o.amqp) w)
        ∙ (close-Shut o.amqp r.by_close w w refl).0

    clock-marked :
        (h : Held D) (w : World (Wire D))
        → (end_clock o h w).1.ext.connection.closed ≡ w.ext.connection.closed
    unfolding end_clock clock.close
    clock-marked h w =
        ap marked (
          attempt-ext "failed to close clock client" (library (clock.close o.grpc h.clock_client))
            w)

    server-marked :
        (h : Held D) (w : World (Wire D))
        → (end_server o h w).1.ext.connection.closed ≡ w.ext.connection.closed
    unfolding end_server
    server-marked h w =
        ap marked
          (attempt-ext "failed to close http server" (library (o.shutdown_server h.http_server)) w)

    -- If `closes` records those calls: whatever errors come out, the shutdown closes the providers of
    -- the telemetry, the client of the database, the connection of the clock and the server, each once
    -- and in this order, and leaves the connection of the broker marked as closed.
    pub shutdown-Closes :
        (h : Held D) (w : World (Wire D))
        → let v = (shutdown o h w).1 in
          (closes v.ext.outside ≡ closes w.ext.outside ++ all_parts)
          × (v.ext.connection.closed ≡ true)
    unfolding shutdown
    shutdown-Closes h w =
        let w1 : World (Wire D) = (end_telemetry o h w).1 in
        let w2 : World (Wire D) = (end_mongo o h w1).1 in
        let w3 : World (Wire D) = (end_hour_change o h w2).1 in
        let w4 : World (Wire D) = (end_day_change o h w3).1 in
        let w5 : World (Wire D) = (end_cleaning o h w4).1 in
        let w6 : World (Wire D) = (end_rabbitmq o h w5).1 in
        let w7 : World (Wire D) = (end_clock o h w6).1 in
        (
          rw
              (
                server-closed h w7,
                clock-closed h w6,
                rabbitmq-closed h w5,
                cleaning-closed h w4,
                day_change-closed h w3,
                hour_change-closed h w2,
                mongo-closed h w1,
                telemetry-closed h w,
              )
              (one_by_one (closes w.ext.outside)),
          server-marked h w7 ∙ clock-marked h w6 ∙ rabbitmq-marked h w5,
        )
