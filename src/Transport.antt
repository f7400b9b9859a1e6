-- ===== src/Transport.antt =====
-- internal/transport: the server of the probes.
pub mod Laws
mod Tests
use kenshu_elaris_project_st.Base.{
  ℕ, ℤ, String, Bool, true, false, Option, none, some, List, [], ◌∷◌, if◌then◌else◌,
}
use kenshu_elaris_project_st.Domain.Errors.{Error}
use kenshu_elaris_project_st.Config.{AppConfig}
use kenshu_elaris_project_st.App.World.{
  Action, ◌>>=◌, ◌>>◌, pure, skip, write, info, problem, failure,
}
use kenshu_elaris_project_st.Mq.Amqp.{Amqp, Wire, library}
use kenshu_elaris_project_st.Mq.Connection.{is_connection_open}
use kenshu_elaris_project_st.Mdb.Client.{Driver, Mdb, ping}

-- A code of HTTP, and the text that `http.Error` is given.
pub record Response : Type 0 where
  pub code : ℕ
  pub text : String

abbrev pub service_unavailable : String → Response
service_unavailable text = record { code = 503; text = text }

abbrev pub status_ok : Response
status_ok = record { code = 200; text = "" }

pub data Handler : Type 0 where
  health_handler : Handler
  readiness_handler : Handler

-- The fields of the server that are set, limits of time in seconds; of the address, its two parts.
pub record HttpServer : Type 0 where
  pub host : String
  pub port : ℤ
  pub handlers : List (String × Handler)
  pub read_header_timeout_in_seconds : ℤ
  pub read_timeout_in_seconds : ℤ
  pub write_timeout_in_seconds : ℤ
  pub idle_timeout_in_seconds : ℤ

abbrev pub start_http_server : AppConfig → HttpServer
start_http_server cfg = record {
  host = cfg.server.host;
  port = cfg.server.port;
  handlers = ("/healthz", health_handler) ∷ ("/readyz", readiness_handler) ∷ [];
  read_header_timeout_in_seconds = cfg.server.read_header_timeout_in_seconds;
  read_timeout_in_seconds = cfg.server.read_timeout_in_seconds;
  write_timeout_in_seconds = cfg.server.write_timeout_in_seconds;
  idle_timeout_in_seconds = cfg.server.idle_timeout_in_seconds;
}

module _ {D : Type 0} (a : Amqp D) (driver : Driver D) where
  after_ping : Option Error → Action (Wire D) Response
  after_ping none = pure status_ok
  after_ping (some e) = do
    write (failure "db ping failed" e)
    pure (service_unavailable "db ping failed")

  when_open : Mdb → Bool → Action (Wire D) Response
  unfolding after_ping
  when_open client false = do
    write (problem "rabbitmq connection is not open")
    pure (service_unavailable "rabbitmq connection closed")
  when_open client true = library (ping driver client) >>= after_ping

  -- What `HealthHandler` and the function that `ReadinessHandler` answers do.
  unfoldable pub handle : Mdb → Handler → Action (Wire D) Response
  unfolding when_open
  handle client health_handler = pure status_ok
  handle client readiness_handler = is_connection_open a >>= when_open client

-- What `ListenAndServe` of the library does, and whether an error is `http.ErrServerClosed`.
pub record HttpLibrary (D : Type 0) : Type 0 where
  pub listen_and_serve : HttpServer → D → Option Error × D
  pub is_server_closed : Error → Bool

module _ {D : Type 0} (http : HttpLibrary D) where
  stopped_serving : Option Error → Action (Wire D) (Unit {0})
  stopped_serving none = skip
  stopped_serving (some e) =
      if http.is_server_closed e then skip else write (failure "http serve" e)

  -- The goroutine of `StartHTTPServer`.
  unfoldable pub listen : HttpServer → Action (Wire D) (Unit {0})
  unfolding stopped_serving
  listen server = do
    write (info "pprof http listening")
    answer ← library (http.listen_and_serve server)
    stopped_serving answer
