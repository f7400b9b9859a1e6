-- ===== src/Mdb/Client.antt =====
-- internal/infra/mdb/mongo_db.go: the client of the database. A client of the driver is a number, and
-- a database its name; contexts, and so the limits of time on the start and the ping, and the monitor
-- of the traces are left out.
pub mod Laws
pub mod Leak
use kenshu_elaris_project_st.Base.{
  ℕ, ℤ, String, Bool, true, false, Option, none, some, concat, str_eq, starts_with, ◌||◌,
  if◌then◌else◌,
}
use kenshu_elaris_project_st.Domain.Errors.{Error, Result, ok, err, wrapped}
use kenshu_elaris_project_st.Config.{MongoConfig}

-- What is set in `options.Client()`.
pub record ClientOptions : Type 0 where
  pub uri : String
  pub connect_timeout_in_seconds : ℤ
  pub server_selection_timeout_in_seconds : ℤ
  pub max_conn_idle_time_in_seconds : ℤ
  pub max_pool_size : ℕ
  pub min_pool_size : ℕ
  pub retry_writes : Bool
  pub replica_set : Option String

-- What the program calls of the driver's client.
pub record Driver (D : Type 0) : Type 0 where
  pub connect : ClientOptions → D → Result ℕ × D
  pub ping : (client : ℕ) → D → Option Error × D
  pub disconnect : (client : ℕ) → D → Option Error × D

-- The type `Mdb`.
pub record Mdb : Type 0 where
  pub client : ℕ
  pub database : String

-- `buildMongoURI`.
unfoldable pub build_mongo_uri : MongoConfig → String
build_mongo_uri config =
    let host = config.conn.host in
    if starts_with host "mongodb://" || starts_with host "mongodb+srv://"
    then host
    else concat "mongodb://" (
        concat config.conn.username.value
          (concat ":" (concat config.conn.password.value (concat "@" host))))

abbrev pub client_options : MongoConfig → ClientOptions
client_options config = record {
  uri = build_mongo_uri config;
  connect_timeout_in_seconds = config.conn.connection_timeout_in_seconds;
  server_selection_timeout_in_seconds = config.conn.server_selection_timeout_in_seconds;
  max_conn_idle_time_in_seconds = config.conn.max_conn_idle_time_in_seconds;
  max_pool_size = config.conn.max_pool_size;
  min_pool_size = config.conn.min_pool_size;
  retry_writes = config.conn.retry_writes;
  replica_set = if str_eq config.conn.replica_set "" then none else some config.conn.replica_set;
}

module _ {D : Type 0} (driver : Driver D) where
  pinged : MongoConfig → ℕ → Option Error → D → Result Mdb × D
  pinged config client none x =
      (ok (record { client = client; database = config.conn.database }), x)
  pinged config client (some e) x =
      let message =
        concat "mongo ping failed for URI: " (concat (build_mongo_uri config) ", error") in
      (err (wrapped message e), (driver.disconnect client x).1)

  connected : MongoConfig → Result ℕ → D → Result Mdb × D
  unfolding pinged
  connected config (err e) x = (err e, x)
  connected config (ok client) x = let (e, y) = driver.ping client x in pinged config client e y

  -- `NewMongoDb`.
  unfoldable pub new_mongo_db : MongoConfig → D → Result Mdb × D
  unfolding connected
  new_mongo_db config x =
      let (client, y) = driver.connect (client_options config) x in connected config client y

  -- `Ping`, and `Close`.
  unfoldable pub ping : Mdb → D → Option Error × D
  ping d = driver.ping d.client

  unfoldable pub close : Mdb → D → Option Error × D
  close d = driver.disconnect d.client
