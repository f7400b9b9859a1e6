-- ===== src/Mq/Port.antt =====
-- internal/port/mq.go: the two interfaces of the broker's clients, and the clients that implement
-- them. A client is a value of `C`, and a method answers it as it is afterwards; `M` stands for the
-- messages of protocol buffers.
use kenshu_elaris_project_st.Base.{ℕ, String, Option, List}
use kenshu_elaris_project_st.Domain.Errors.{Error, Result}
use kenshu_elaris_project_st.Config.{ExchangeConfig, QueueConfig, BindingConfig}
use kenshu_elaris_project_st.App.World.{Action}
use kenshu_elaris_project_st.Mq.Amqp.{Amqp, Wire}
use kenshu_elaris_project_st.Mq.Channel.{close_channel}
use kenshu_elaris_project_st.Mq.Consumer.{
  RabbitmqConsumer, Consumed, declare_queue, bind_queue, consume,
}
use kenshu_elaris_project_st.Mq.Producer.{RabbitmqProducer, declare_exchange, publish}

pub record MqPublisher (D C M : Type 0) : Type 0 where
  pub declare_exchange : C → ExchangeConfig → Action D (Option Error × C)
  pub publish : C → M → (routing_key : String) → Action D (Option Error × C)
  pub close_channel : C → Action D (Option Error)

pub record MqConsumer (D C : Type 0) : Type 0 where
  pub declare_queue : C → QueueConfig → Action D (Option Error × C)
  pub bind_queue : C → BindingConfig → Action D (Option Error × C)
  pub consume : C → Action D (Consumed × C)
  pub close_channel : C → Action D (Option Error)

module _ {D : Type 0} (a : Amqp D) where
  abbrev pub rabbitmq_publisher :
      {M : Type 0} → (M → Result (List ℕ)) → MqPublisher (Wire D) RabbitmqProducer M
  rabbitmq_publisher marshal = record {
    declare_exchange = declare_exchange a;
    publish = publish a marshal;
    close_channel = λ p. close_channel a p.channel;
  }

  abbrev pub rabbitmq_consumer : MqConsumer (Wire D) RabbitmqConsumer
  rabbitmq_consumer = record {
    declare_queue = declare_queue a;
    bind_queue = bind_queue a;
    consume = consume a;
    close_channel = λ c. close_channel a c.channel;
  }
