-- ===== src/Infra.antt =====
-- internal/infra/init.go: the clients of the broker that the services get. The connection stands in
-- the state.
pub mod Ready
pub mod Database
pub mod Clock
pub mod Telemetry
pub mod Tracing
pub mod Logging
mod Tests
use kenshu_elaris_project_st.Base.{ℕ, Option, none, some}
use kenshu_elaris_project_st.Domain.Errors.{Error, Result, ok, err}
use kenshu_elaris_project_st.Config.{ConsumerConfig, QueueConfig, BindingConfig, RabbitMqConfig}
use kenshu_elaris_project_st.App.World.{World, Action, ◌>>=◌}
use kenshu_elaris_project_st.Mq.Amqp.{Amqp, Wire}
use kenshu_elaris_project_st.Mq.Connection.{new_rabbit_mq_connection}
use kenshu_elaris_project_st.Mq.Consumer.{
  RabbitmqConsumer, new_rabbitmq_consumer, declare_queue, bind_queue,
}

-- The type `Rabbitmq`. Its `ConnectionClose` is `close` of Mq/Connection.
pub record Rabbitmq : Type 0 where
  pub cleaning_consumer : RabbitmqConsumer
  pub day_change_consumer : RabbitmqConsumer
  pub hour_change_consumer : RabbitmqConsumer

-- `if err != nil { return ..., err }` behind a call.
pub continued : {D A B : Type 0} → (A → Action D (Result B)) → Result A → Action D (Result B)
continued f (ok x) w = f x w
continued f (err e) w = (err e, w)

pub and_then :
    {D A B : Type 0} → Action D (Result A) → (A → Action D (Result B)) → Action D (Result B)
unfolding continued
and_then m f = m >>= continued f

pub or_error : Option Error × RabbitmqConsumer → Result RabbitmqConsumer
or_error (none, c) = ok c
or_error (some e, c) = err e

pub connected : Option Error → Result (Unit {0})
connected none = ok tt
connected (some e) = err e

module _ {D : Type 0} (a : Amqp D) where
  pub bind_declared :
      BindingConfig
      → Option Error × RabbitmqConsumer
      → Action (Wire D) (Option Error × RabbitmqConsumer)
  bind_declared binding (some e, c) w = ((some e, c), w)
  bind_declared binding (none, c) w = bind_queue a c binding w

  -- `declareAndBindConsumer`.
  unfoldable pub declare_and_bind_consumer :
      RabbitmqConsumer
      → QueueConfig
      → BindingConfig
      → Action (Wire D) (Option Error × RabbitmqConsumer)
  unfolding bind_declared
  declare_and_bind_consumer c queue binding = declare_queue a c queue >>= bind_declared binding

  pub declared_and_bound :
      RabbitmqConsumer → ConsumerConfig → Action (Wire D) (Result RabbitmqConsumer)
  unfolding or_error declare_and_bind_consumer
  declared_and_bound c config w =
      let (answer, v) = declare_and_bind_consumer c config.queue config.binding w in
      (or_error answer, v)

  pub connect : RabbitMqConfig → Action (Wire D) (Result (Unit {0}))
  unfolding connected
  connect config w = let (e, v) = new_rabbit_mq_connection a config w in (connected e, v)

  -- `NewRabbitmq`.
  unfoldable pub new_rabbitmq : RabbitMqConfig → Action (Wire D) (Result Rabbitmq)
  unfolding and_then connect declared_and_bound
  new_rabbitmq config =
      let all = config.consumers in
      and_then (connect config) (λ connection.
        and_then (new_rabbitmq_consumer a all.cleaning.consume) (λ cleaning.
          and_then (new_rabbitmq_consumer a all.day_change.consume) (λ day_change.
            and_then (new_rabbitmq_consumer a all.hour_change.consume) (λ hour_change.
              and_then (declared_and_bound cleaning all.cleaning) (λ cleaning_bound.
                and_then (declared_and_bound day_change all.day_change) (λ day_change_bound.
                  and_then (declared_and_bound hour_change all.hour_change) (λ hour_change_bound w.
                    (
                      ok (record {
                        cleaning_consumer = cleaning_bound;
                        day_change_consumer = day_change_bound;
                        hour_change_consumer = hour_change_bound;
                      }),
                      w,
                    ))))))))
