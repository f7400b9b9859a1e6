-- ===== src/Mq/Amqp.antt =====
-- The library of AMQP, whose code is elsewhere, as what the clients of internal/infra/mq call of it,
-- over the state `D` of the broker and the network. A connection and a channel of the library is a
-- number. `IsClosed` reads a state that the network may change at any time, so it is a call as the
-- others are. `sleep` is `time.Sleep(rabbitDialBackoff)`.
use kenshu_elaris_project_st.Base.{ℕ, ℤ, String, Bool, Option, List}
use kenshu_elaris_project_st.Domain.Errors.{Error, Result}
use kenshu_elaris_project_st.Config.{
  RabbitMqConfig, QueueConfig, ExchangeConfig, ConsumeConfig, PublishConfig,
}
use kenshu_elaris_project_st.App.World.{Action}

-- `amqp.URI`, of which the scheme is "amqp".
pub record Uri : Type 0 where
  pub username : String
  pub password : String
  pub host : String
  pub port : ℤ

-- The fields of `amqp.Publishing` but the headers of the trace and the timestamp.
pub record Publishing : Type 0 where
  pub content_type : String
  pub body : List ℕ
  pub persistent : Bool

pub record Amqp (D : Type 0) : Type 0 where
  pub dial : Uri → D → Result ℕ × D
  pub sleep : D → Unit {0} × D
  pub connection_closed : (conn : ℕ) → D → Bool × D
  pub close_connection : (conn : ℕ) → D → Option Error × D
  pub channel : (conn : ℕ) → D → Result ℕ × D
  pub channel_closed : (ch : ℕ) → D → Bool × D
  pub close_channel : (ch : ℕ) → D → Option Error × D
  -- It answers the queue's name.
  pub queue_declare : (ch : ℕ) → QueueConfig → D → Result String × D
  pub queue_bind :
      (ch : ℕ) (queue routing_key exchange : String) (no_wait : Bool) → D → Option Error × D
  -- It answers the channel of deliveries.
  pub consume_with_context : (ch : ℕ) (queue : String) → ConsumeConfig → D → Result ℕ × D
  pub exchange_declare : (ch : ℕ) (name kind : String) → ExchangeConfig → D → Option Error × D
  pub publish_with_context :
      (ch : ℕ) (exchange routing_key : String) → PublishConfig → Publishing → D → Option Error × D

-- The type `RabbitMqConnection`.
pub record RabbitMqConnection : Type 0 where
  pub conn : Option ℕ
  pub cfg : RabbitMqConfig
  pub closed : Bool

-- A connection, which its channels share, over the outside.
pub record Wire (D : Type 0) : Type 0 where
  pub connection : RabbitMqConnection
  pub outside : D

-- A call of the library.
abbrev pub library : {D A : Type 0} → (D → A × D) → Action (Wire D) A
library f w =
    ((f w.ext.outside).0, record w { ext = record w.ext { outside = (f w.ext.outside).1 } })
