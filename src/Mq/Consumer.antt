-- ===== src/Mq/Consumer.antt =====
-- internal/infra/mq/rabbitmq_consumer.go. A method takes the consumer, and answers it as it is
-- afterwards. Names in the texts of errors stand without the quotation marks of "%q".
pub mod Ready
pub mod Kept
use kenshu_elaris_project_st.Base.{
  ℕ, String, Bool, true, false, Option, none, some, str_eq, concat, if◌then◌else◌,
}
use kenshu_elaris_project_st.Domain.Errors.{Error, Result, ok, err, plain, wrapped, mq_unexpected}
use kenshu_elaris_project_st.Config.{ConsumeConfig, QueueConfig, BindingConfig}
use kenshu_elaris_project_st.App.World.{failure, World, Action, ◌>>=◌, ◌>>◌, pure, write}
use kenshu_elaris_project_st.Mq.Amqp.{Amqp, Wire, library}
use kenshu_elaris_project_st.Mq.Channel.{new_channel, open_channel, reopen_channel, is_gone}

-- The type `rabbitmqConsumer`; of the queue, its name.
pub record RabbitmqConsumer : Type 0 where
  pub channel : Option ℕ
  pub queue : Option String
  pub consume_config : ConsumeConfig

-- How `Consume` ends: with the channel of deliveries or an error, or, at a queue that is nil, not at all.
pub data Consumed : Type 0 where
  deliveries : ℕ → Consumed
  refused : Error → Consumed
  nil_queue : Consumed

created : ConsumeConfig → Result ℕ → Result RabbitmqConsumer
created consume_config (ok ch) =
    ok (record { channel = some ch; queue = none; consume_config = consume_config })
created consume_config (err e) = err e

pub declared : RabbitmqConsumer → String → Result String → Option Error × RabbitmqConsumer
declared c name (ok queue) = (none, record c { queue = some queue })
declared c name (err e) = (some (wrapped (concat "declare queue " name) e), c)

abbrev bind_text : (queue exchange routing_key : String) → String
bind_text queue exchange routing_key = concat "bind queue " (
    concat queue
      (concat " to exchange " (concat exchange (concat " with routing key " routing_key))))

bound : (queue : String) → BindingConfig → Option Error → Option Error
bound queue config none = none
bound queue config (some e) =
    some (wrapped (bind_text queue config.exchange_name config.routing_key) e)

module _ {D : Type 0} (a : Amqp D) where
  unfoldable pub new_rabbitmq_consumer : ConsumeConfig → Action (Wire D) (Result RabbitmqConsumer)
  unfolding created
  new_rabbitmq_consumer consume_config w =
      let (opened, v) = open_channel a w in (created consume_config opened, v)

  -- The channel to work on, a new one if the consumer's is nil or closed.
  pub kept_or_new : Option ℕ → Bool → Action (Wire D) (Result ℕ)
  kept_or_new none gone w = reopen_channel a w
  kept_or_new (some ch) true w = reopen_channel a w
  kept_or_new (some ch) false w = (ok ch, w)

  unfoldable pub usable_channel : Option ℕ → Action (Wire D) (Result ℕ)
  unfolding kept_or_new
  usable_channel channel = is_gone a channel >>= kept_or_new channel

  pub declare_on :
      RabbitmqConsumer → QueueConfig → Result ℕ → Action (Wire D) (Option Error × RabbitmqConsumer)
  unfolding declared
  declare_on c config (err e) w = ((some e, c), w)
  declare_on c config (ok ch) w =
      let (answer, v) = library (a.queue_declare ch config) w in
      (declared (record c { channel = some ch }) config.name answer, v)

  unfoldable pub declare_queue :
      RabbitmqConsumer → QueueConfig → Action (Wire D) (Option Error × RabbitmqConsumer)
  unfolding usable_channel declare_on
  declare_queue c config = usable_channel c.channel >>= declare_on c config

  pub bind_named : ℕ → (queue : Option String) → BindingConfig → Action (Wire D) (Option Error)
  unfolding bound
  bind_named ch none config w = (some (plain "queue not declared"), w)
  bind_named ch (some queue) config w =
      if str_eq config.exchange_name ""
      then (some (plain "exchange name is required"), w)
      else (let (answer, v) =
            library (a.queue_bind ch queue config.routing_key config.exchange_name config.no_wait)
              w in
          (bound queue config answer, v))

  pub bind_on :
      RabbitmqConsumer
      → BindingConfig
      → Result ℕ
      → Action (Wire D) (Option Error × RabbitmqConsumer)
  unfolding bind_named
  bind_on c config (err e) w = ((some e, c), w)
  bind_on c config (ok ch) w =
      let (answer, v) = bind_named ch c.queue config w in
      ((answer, record c { channel = some ch }), v)

  unfoldable pub bind_queue :
      RabbitmqConsumer → BindingConfig → Action (Wire D) (Option Error × RabbitmqConsumer)
  unfolding usable_channel bind_on
  bind_queue c config = usable_channel c.channel >>= bind_on c config

  consume_answer : String → Result ℕ → Action (Wire D) Consumed
  consume_answer queue (ok channel) w = (deliveries channel, w)
  consume_answer queue (err e) w = (
    refused (mq_unexpected (concat "start consuming queue " queue) e),
    (write (failure "failed to consume queue" e) w).1,
  )

  pub consume_on : Option String → ConsumeConfig → ℕ → Action (Wire D) Consumed
  unfolding consume_answer
  consume_on none config ch w = (nil_queue, w)
  consume_on (some queue) config ch w =
      (library (a.consume_with_context ch queue config) >>= consume_answer queue) w

  -- `Consume` opens a channel only if there was none: one that is closed is used.
  pub present_or_new : Option ℕ → Action (Wire D) (Result ℕ)
  present_or_new none w = reopen_channel a w
  present_or_new (some ch) w = (ok ch, w)

  pub consume_with : RabbitmqConsumer → Result ℕ → Action (Wire D) (Consumed × RabbitmqConsumer)
  unfolding consume_on
  consume_with c (err e) w = ((refused e, c), w)
  consume_with c (ok ch) w =
      let (answer, v) = consume_on c.queue c.consume_config ch w in
      ((answer, record c { channel = some ch }), v)

  unfoldable pub consume : RabbitmqConsumer → Action (Wire D) (Consumed × RabbitmqConsumer)
  unfolding present_or_new consume_with
  consume c = present_or_new c.channel >>= consume_with c
