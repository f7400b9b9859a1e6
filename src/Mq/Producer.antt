-- ===== src/Mq/Producer.antt =====
-- internal/infra/mq/rabbitmq_producer.go, without the headers that carry a trace. A method takes the
-- producer, and answers it as it is afterwards; the name in the text of an error stands without the
-- quotation marks of "%q". `marshal` is `proto.Marshal` of the message.
pub mod Laws
use kenshu_elaris_project_st.Base.{
  ℕ, String, true, Option, none, some, List, str_eq, concat, if◌then◌else◌,
}
use kenshu_elaris_project_st.Domain.Errors.{Error, Result, ok, err, wrapped, mq_unexpected}
use kenshu_elaris_project_st.Config.{ExchangeConfig, PublishConfig}
use kenshu_elaris_project_st.App.World.{warning, failure, Action, ◌>>=◌, ◌>>◌, skip, write}
use kenshu_elaris_project_st.Mq.Amqp.{Amqp, Wire, library}
use kenshu_elaris_project_st.Mq.Channel.{open_channel}
use kenshu_elaris_project_st.Mq.Consumer.{usable_channel}

-- The type `rabbitmqProducer`.
pub record RabbitmqProducer : Type 0 where
  pub channel : Option ℕ
  pub exchange_name : String
  pub exchange_kind : String
  pub publish_config : PublishConfig

abbrev pub kind_or_direct : String → String
kind_or_direct kind = if str_eq kind "" then "direct" else kind

module _ {D : Type 0} (a : Amqp D) where
  created : PublishConfig → Result ℕ → Result RabbitmqProducer
  created publish_config (ok ch) = ok (record {
    channel = some ch;
    exchange_name = "";
    exchange_kind = "";
    publish_config = publish_config;
  })
  created publish_config (err e) = err e

  unfoldable pub new_rabbitmq_producer : PublishConfig → Action (Wire D) (Result RabbitmqProducer)
  unfolding created
  new_rabbitmq_producer publish_config w =
      let (opened, v) = open_channel a w in (created publish_config opened, v)

  warn_kind : String → Action (Wire D) (Unit {0})
  warn_kind kind =
      if str_eq kind ""
      then write (warning "exchange kind not specified, defaulting to 'direct'")
      else skip

  declared : String → Option Error → Option Error
  declared name none = none
  declared name (some e) = some (wrapped (concat "declare exchange " name) e)

  declare_on :
      RabbitmqProducer
      → ExchangeConfig
      → Result ℕ
      → Action (Wire D) (Option Error × RabbitmqProducer)
  unfolding declared
  declare_on p config (err e) w = ((some e, p), w)
  declare_on p config (ok ch) w =
      let (answer, v) = library (a.exchange_declare ch p.exchange_name p.exchange_kind config) w in
      ((declared config.name answer, record p { channel = some ch }), v)

  unfoldable pub declare_exchange :
      RabbitmqProducer → ExchangeConfig → Action (Wire D) (Option Error × RabbitmqProducer)
  unfolding warn_kind declare_on usable_channel
  declare_exchange p config =
      warn_kind config.kind
      >> (usable_channel a p.channel
          >>= declare_on
              (record p { exchange_name = config.name; exchange_kind = kind_or_direct config.kind })
              config)

  published : Option Error → Action (Wire D) (Option Error)
  published none w = (none, w)
  published (some e) w = (
    some (mq_unexpected "failed to publish message" e),
    (write (failure "failed to publish message" e) w).1,
  )

  publish_payload : RabbitmqProducer → ℕ → String → Result (List ℕ) → Action (Wire D) (Option Error)
  unfolding published
  publish_payload p ch routing_key (err e) w = (
    some (mq_unexpected "failed to marshal message" e),
    (write (failure "failed to marshal message" e) w).1,
  )
  publish_payload p ch routing_key (ok payload) w =
      (library (
            a.publish_with_context ch p.exchange_name routing_key p.publish_config
              (record { content_type = "application/protobuf"; body = payload; persistent = true }))
          >>= published)
        w

  publish_on :
      RabbitmqProducer
      → Result (List ℕ)
      → String
      → Result ℕ
      → Action (Wire D) (Option Error × RabbitmqProducer)
  unfolding publish_payload
  publish_on p marshalled routing_key (err e) w = ((some e, p), w)
  publish_on p marshalled routing_key (ok ch) w =
      let (answer, v) = publish_payload p ch routing_key marshalled w in
      ((answer, record p { channel = some ch }), v)

  unfoldable pub publish :
      {M : Type 0}
      → (M → Result (List ℕ))
      → RabbitmqProducer
      → M
      → String
      → Action (Wire D) (Option Error × RabbitmqProducer)
  unfolding publish_on usable_channel
  publish marshal p message routing_key =
      usable_channel a p.channel >>= publish_on p (marshal message) routing_key
