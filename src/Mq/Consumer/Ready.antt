-- ===== src/Mq/Consumer/Ready.antt =====
-- When a consumer is ready to consume, and what it does then.
use kenshu_elaris_project_st.Base.{ℕ, String, ◌≡◌, refl, sym, subst, ap, Option, none, some, concat}
use kenshu_elaris_project_st.Domain.Errors.{Error, Result, ok, err, mq_unexpected}
use kenshu_elaris_project_st.Config.{ConsumeConfig, QueueConfig, BindingConfig}
use kenshu_elaris_project_st.App.World.{World}
use kenshu_elaris_project_st.Mq.Amqp.{Amqp, Wire, library}
use kenshu_elaris_project_st.Mq.Channel.{open_channel}
use kenshu_elaris_project_st.Mq.Consumer.{
  RabbitmqConsumer, Consumed, deliveries, refused, new_rabbitmq_consumer, created, declare_on,
  declared, usable_channel, bind_queue, bind_on, bind_named, consume, consume_with, consume_on,
  consume_answer, present_or_new, declare_queue,
}

-- A value, if there is one, has the property.
abbrev pub Holds : {A : Type 0} → (A → Type 0) → Result A → Type 0
Holds P (ok x) = P x
Holds P (err e) = Unit

-- It has a channel and the configuration of its consumption; and it has a queue as well.
abbrev pub Opened : ConsumeConfig → RabbitmqConsumer → Type 0
Opened config c = ((ch : ℕ) × (c.channel ≡ some ch)) × (c.consume_config ≡ config)

abbrev pub Named : ConsumeConfig → RabbitmqConsumer → Type 0
Named config c = ((queue : String) × (c.queue ≡ some queue)) × (c.consume_config ≡ config)

abbrev pub IsReady : ConsumeConfig → RabbitmqConsumer → Type 0
IsReady config c = Named config c × ((ch : ℕ) × (c.channel ≡ some ch))

abbrev pub WhenDone : (RabbitmqConsumer → Type 0) → Option Error × RabbitmqConsumer → Type 0
WhenDone P (none, c) = P c
WhenDone P (some e, c) = Unit

module _ {D : Type 0} (a : Amqp D) where
  created-Opened :
      (config : ConsumeConfig) (r : Result ℕ) → Holds (Opened config) (created config r)
  unfolding created
  created-Opened config (ok ch) = ((ch, refl), refl)
  created-Opened config (err e) = tt

  pub new_consumer-Opened :
      (config : ConsumeConfig) (w : World (Wire D))
      → Holds (Opened config) (new_rabbitmq_consumer a config w).0
  unfolding new_rabbitmq_consumer
  new_consumer-Opened config w = created-Opened config (open_channel a w).0

  declared-Named :
      (c : RabbitmqConsumer) (name : String) (answer : Result String)
      → WhenDone (Named c.consume_config) (declared c name answer)
  unfolding declared
  declared-Named c name (ok queue) = ((queue, refl), refl)
  declared-Named c name (err e) = tt

  declare_on-Named :
      (c : RabbitmqConsumer) (config : QueueConfig) (r : Result ℕ) (w : World (Wire D))
      → WhenDone (Named c.consume_config) (declare_on a c config r w).0
  unfolding declare_on
  declare_on-Named c config (ok ch) w =
      declared-Named (record c { channel = some ch }) config.name
        (a.queue_declare ch config w.ext.outside).0
  declare_on-Named c config (err e) w = tt

  bind_on-IsReady :
      (config : ConsumeConfig) (c : RabbitmqConsumer) (binding : BindingConfig) (r : Result ℕ)
      (w : World (Wire D))
      → Named config c
      → WhenDone (IsReady config) (bind_on a c binding r w).0
  unfolding bind_on
  bind_on-IsReady config c binding (ok ch) w h = answered (bind_named a ch c.queue binding w).0
    where
      answered : (e : Option Error) → WhenDone (IsReady config) (e, record c { channel = some ch })
      answered none = (h, (ch, refl))
      answered (some e) = tt
  bind_on-IsReady config c binding (err e) w h = tt

  -- The queue of a consumer behind `DeclareQueue`, and the consumer behind `BindQueue`.
  pub declare_queue-Named :
      (c : RabbitmqConsumer) (config : QueueConfig) (w : World (Wire D))
      → WhenDone (Named c.consume_config) (declare_queue a c config w).0
  unfolding declare_queue
  declare_queue-Named c config w =
      let (channel, v) = usable_channel a c.channel w in declare_on-Named c config channel v

  pub bind_queue-IsReady :
      (config : ConsumeConfig) (c : RabbitmqConsumer) (binding : BindingConfig) (w : World (Wire D))
      → Named config c
      → WhenDone (IsReady config) (bind_queue a c binding w).0
  unfolding bind_queue
  bind_queue-IsReady config c binding w h =
      let (channel, v) = usable_channel a c.channel w in
      bind_on-IsReady config c binding channel v h

  -- How the answer of the library to the start of a consumption is passed on.
  abbrev pub passed_on : String → Result ℕ → Consumed
  passed_on queue (ok channel) = deliveries channel
  passed_on queue (err e) = refused (mq_unexpected (concat "start consuming queue " queue) e)

  -- It consumes by one call of the library, on its own channel and queue.
  abbrev pub Consumes : ConsumeConfig → RabbitmqConsumer → World (Wire D) → Type 0
  Consumes config c w =
      (ch : ℕ) × (queue : String) × (c.channel ≡ some ch)
      × (c.queue ≡ some queue)
      × ((consume a c w).0
          ≡ (passed_on queue (a.consume_with_context ch queue config w.ext.outside).0, c))
      × ((consume a c w).1.ext
          ≡ record w.ext { outside = (a.consume_with_context ch queue config w.ext.outside).1 })

  answer-passed_on :
      (queue : String) (r : Result ℕ) (w : World (Wire D))
      → ((consume_answer a queue r w).0 ≡ passed_on queue r)
        × ((consume_answer a queue r w).1.ext ≡ w.ext)
  unfolding consume_answer
  answer-passed_on queue (ok channel) w = (refl, refl)
  answer-passed_on queue (err e) w = (refl, refl)

  made-Consumes :
      (config : ConsumeConfig) (ch : ℕ) (queue : String) (w : World (Wire D))
      → Consumes config
          (record { channel = some ch; queue = some queue; consume_config = config })
          w
  unfolding consume present_or_new consume_with consume_on
  made-Consumes config ch queue w =
      let v : World (Wire D) = (library (a.consume_with_context ch queue config) w).1 in
      let answer : Result ℕ = (a.consume_with_context ch queue config w.ext.outside).0 in
      let (same, kept) = answer-passed_on queue answer v in
      let c : RabbitmqConsumer = record {
        channel = some ch;
        queue = some queue;
        consume_config = config;
      } in
      (ch, queue, refl, refl, ap (λ r. (r, c)) same, kept)

  pub ready-Consumes :
      (config : ConsumeConfig) (c : RabbitmqConsumer)
      → IsReady config c
      → (w : World (Wire D)) → Consumes config c w
  ready-Consumes config c (((queue, named), configured), (ch, present)) w =
      subst (λ d. Consumes config d w)
        (λ i. record {
          channel = sym present i;
          queue = sym named i;
          consume_config = sym configured i;
        })
        (made-Consumes config ch queue w)
