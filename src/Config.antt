-- ===== src/Config.antt =====
-- internal/config: what the program reads from its environment. The package env, which fills the
-- structs by their tags, is a parameter; a nested struct without a name is called by its field.
use kenshu_elaris_project_st.Base.{ℕ, ℤ, String, Bool, List, [], ◌∷◌}
use kenshu_elaris_project_st.Domain.Errors.{Result, ok, err}
use kenshu_elaris_project_st.App.World.{Entry, info}

pub record Secret : Type 0 where
  pub value : String

-- `String`, which the verbs of package fmt call.
unfoldable pub secret_string : Secret → String
secret_string s = "REDACTED"

pub record Name : Type 0 where
  pub service_name : String
  pub version : String

pub record Server : Type 0 where
  pub host : String
  pub port : ℤ
  pub read_header_timeout_in_seconds : ℤ
  pub read_timeout_in_seconds : ℤ
  pub write_timeout_in_seconds : ℤ
  pub idle_timeout_in_seconds : ℤ

pub record Log : Type 0 where
  pub level : ℤ

pub record Telemetry : Type 0 where
  pub otlp_endpoint : String
  pub otlp_grpc_port : ℤ
  pub otlp_health_port : ℤ
  pub otlp_insecure : Bool

pub record Employees : Type 0 where
  pub housekeepers : List String
  pub launderers : List String
  pub stockers : List String

pub record AppConfig : Type 0 where
  pub name : Name
  pub server : Server
  pub log : Log
  pub telemetry : Telemetry
  pub employees : Employees

pub record Conn : Type 0 where
  pub username : Secret
  pub password : Secret
  pub host : String
  pub database : String
  pub replica_set : String
  pub connection_timeout_in_seconds : ℤ
  pub server_selection_timeout_in_seconds : ℤ
  pub ping_timeout_in_seconds : ℤ
  pub startup_timeout_in_seconds : ℤ
  pub max_conn_idle_time_in_seconds : ℤ
  pub max_pool_size : ℕ
  pub min_pool_size : ℕ
  pub retry_writes : Bool

pub record Collections : Type 0 where
  pub cottage : String
  pub stock : String

pub record MongoConfig : Type 0 where
  pub conn : Conn
  pub collections : Collections

pub record ExchangeConfig : Type 0 where
  pub name : String
  pub kind : String
  pub durable : Bool
  pub auto_delete : Bool
  pub is_internal : Bool
  pub no_wait : Bool

pub record QueueConfig : Type 0 where
  pub name : String
  pub durable : Bool
  pub auto_delete : Bool
  pub exclusive : Bool
  pub no_wait : Bool

pub record BindingConfig : Type 0 where
  pub exchange_name : String
  pub routing_key : String
  pub no_wait : Bool

pub record PublishConfig : Type 0 where
  pub mandatory : Bool
  pub is_immediate : Bool

pub record ConsumeConfig : Type 0 where
  pub consumer : String
  pub auto_ack : Bool
  pub exclusive : Bool
  pub no_local : Bool
  pub no_wait : Bool

-- The type of `Cleaning`, `DayChange` and `HourChange`.
pub record ConsumerConfig : Type 0 where
  pub queue : QueueConfig
  pub binding : BindingConfig
  pub consume : ConsumeConfig

pub record Consumers : Type 0 where
  pub cleaning : ConsumerConfig
  pub day_change : ConsumerConfig
  pub hour_change : ConsumerConfig

pub record RabbitMqConfig : Type 0 where
  pub username : Secret
  pub password : Secret
  pub host : String
  pub port : ℤ
  pub consumers : Consumers

pub record ClockSimulator : Type 0 where
  pub grpc_host : String
  pub grpc_port : ℤ

-- The type `Services` of the package.
pub record ServicesConfig : Type 0 where
  pub clock_simulator : ClockSimulator

pub record Configs : Type 0 where
  pub app_config : AppConfig
  pub mongo_config : MongoConfig
  pub rabbit_mq_config : RabbitMqConfig
  pub services : ServicesConfig

-- `LoadConfigs`, with what it logs. `parsed` is what `env.Parse` answers.
unfoldable pub load_configs : (parsed : Result Configs) → Result Configs × List Entry
load_configs (err e) = (err e, [])
load_configs (ok configs) = (ok configs, info "config loaded" ∷ [])
