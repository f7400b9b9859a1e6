-- ===== src/Infra/Ready.antt =====
-- What the consumers of internal/infra/init.go can do.
use kenshu_elaris_project_st.Base.{◌≡◌, subst, Option, none, some}
use kenshu_elaris_project_st.Domain.Errors.{Error, Result, ok, err}
use kenshu_elaris_project_st.Config.{ConsumerConfig, ConsumeConfig, BindingConfig, RabbitMqConfig}
use kenshu_elaris_project_st.App.World.{World, Action}
use kenshu_elaris_project_st.Mq.Amqp.{Amqp, Wire}
use kenshu_elaris_project_st.Mq.Consumer.{
  RabbitmqConsumer, new_rabbitmq_consumer, declare_queue, bind_queue,
}
use kenshu_elaris_project_st.Mq.Consumer.Ready.{
  Holds, Opened, Named, IsReady, WhenDone, new_consumer-Opened, declare_queue-Named,
  bind_queue-IsReady, Consumes, ready-Consumes,
}
use kenshu_elaris_project_st.Infra.{
  Rabbitmq, continued, and_then, bind_declared, declare_and_bind_consumer, or_error,
  declared_and_bound, connect, new_rabbitmq,
}

anything : {A : Type 0} (r : Result A) → Holds (λ x. Unit) r
anything (ok x) = tt
anything (err e) = tt

continued-Holds :
    {D A B : Type 0} (P : A → Type 0) (Q : B → Type 0) (f : A → Action D (Result B)) (r : Result A)
    (v : World D)
    → Holds P r
    → ((x : A) → P x → (v : World D) → Holds Q (f x v).0)
    → Holds Q (continued f r v).0
unfolding continued
continued-Holds P Q f (ok x) v first rest = rest x first v
continued-Holds P Q f (err e) v first rest = tt

and_then-Holds :
    {D A B : Type 0} (P : A → Type 0) (Q : B → Type 0) (m : Action D (Result A))
    (f : A → Action D (Result B)) (w : World D)
    → Holds P (m w).0
    → ((x : A) → P x → (v : World D) → Holds Q (f x v).0)
    → Holds Q (and_then m f w).0
unfolding and_then
and_then-Holds P Q m f w first rest = continued-Holds P Q f (m w).0 (m w).1 first rest

module _ {D : Type 0} (a : Amqp D) where
  bind_declared-IsReady :
      (config : ConsumeConfig) (binding : BindingConfig) (r : Option Error × RabbitmqConsumer)
      (w : World (Wire D))
      → WhenDone (Named config) r
      → Holds (IsReady config) (or_error (bind_declared a binding r w).0)
  unfolding bind_declared or_error
  bind_declared-IsReady config binding (some e, c) w h = tt
  bind_declared-IsReady config binding (none, c) w h =
      answered (bind_queue a c binding w).0 (bind_queue-IsReady a config c binding w h)
    where
      answered :
          (r : Option Error × RabbitmqConsumer)
          → WhenDone (IsReady config) r
          → Holds (IsReady config) (or_error r)
      answered (none, c) ready = ready
      answered (some e, c) ready = tt

  declared_and_bound-IsReady :
      (c : RabbitmqConsumer) (config : ConsumerConfig) (w : World (Wire D))
      → Opened config.consume c
      → Holds (IsReady config.consume) (declared_and_bound a c config w).0
  unfolding declared_and_bound declare_and_bind_consumer
  declared_and_bound-IsReady c config w h =
      let (answer, z) = declare_queue a c config.queue w in
      bind_declared-IsReady config.consume config.binding answer z
        (subst (λ k. WhenDone (Named k) answer) h.1 (declare_queue-Named a c config.queue w))

  abbrev pub AllReady : RabbitMqConfig → Rabbitmq → Type 0
  AllReady config r =
      IsReady config.consumers.cleaning.consume r.cleaning_consumer
      × IsReady config.consumers.day_change.consume r.day_change_consumer
      × IsReady config.consumers.hour_change.consume r.hour_change_consumer

  new_rabbitmq-AllReady :
      (config : RabbitMqConfig) (w : World (Wire D))
      → Holds (AllReady config) (new_rabbitmq a config w).0
  unfolding new_rabbitmq
  new_rabbitmq-AllReady config w =
      let all = config.consumers in
      let any_unit = anything (connect a config w).0 in
      and_then-Holds (λ x. Unit) (AllReady config) (connect a config) _ w any_unit
        (λ x hx v1.
          and_then-Holds (Opened all.cleaning.consume) (AllReady config)
            (new_rabbitmq_consumer a all.cleaning.consume) _ v1
            (new_consumer-Opened a all.cleaning.consume v1)
            (λ c1 h1 v2.
              and_then-Holds (Opened all.day_change.consume) (AllReady config)
                (new_rabbitmq_consumer a all.day_change.consume) _ v2
                (new_consumer-Opened a all.day_change.consume v2)
                (λ c2 h2 v3.
                  and_then-Holds (Opened all.hour_change.consume) (AllReady config)
                    (new_rabbitmq_consumer a all.hour_change.consume) _ v3
                    (new_consumer-Opened a all.hour_change.consume v3)
                    (λ c3 h3 v4.
                      and_then-Holds (IsReady all.cleaning.consume) (AllReady config)
                        (declared_and_bound a c1 all.cleaning) _ v4
                        (declared_and_bound-IsReady c1 all.cleaning v4 h1)
                        (λ d1 r1 v5.
                          and_then-Holds (IsReady all.day_change.consume) (AllReady config)
                            (declared_and_bound a c2 all.day_change) _ v5
                            (declared_and_bound-IsReady c2 all.day_change v5 h2)
                            (λ d2 r2 v6.
                              and_then-Holds (IsReady all.hour_change.consume) (AllReady config)
                                (declared_and_bound a c3 all.hour_change) _ v6
                                (declared_and_bound-IsReady c3 all.hour_change v6 h3)
                                (λ d3 r3 v7.
                                  let h : AllReady config (record {
                                    cleaning_consumer = d1;
                                    day_change_consumer = d2;
                                    hour_change_consumer = d3;
                                  }) =
                                    (r1, r2, r3) in
                                  h)))))))

  -- If `NewRabbitmq` answers its consumers, then each of them can consume at any later moment: it does
  -- so by exactly one call of the library, with the channel that it has, the name of its queue and the
  -- configuration of its consumption, and answers what the library does, so it never reads the queue
  -- of a consumer that has none.
  pub new_rabbitmq-Consumes :
      (config : RabbitMqConfig) (w : World (Wire D)) (r : Rabbitmq)
      → (new_rabbitmq a config w).0 ≡ ok r
      → (later : World (Wire D))
      → Consumes a config.consumers.cleaning.consume r.cleaning_consumer later
        × Consumes a config.consumers.day_change.consume r.day_change_consumer later
        × Consumes a config.consumers.hour_change.consume r.hour_change_consumer later
  new_rabbitmq-Consumes config w r made later =
      let (h1, h2, h3) = subst (Holds (AllReady config)) made (new_rabbitmq-AllReady config w) in
      (
        ready-Consumes a config.consumers.cleaning.consume r.cleaning_consumer h1 later,
        ready-Consumes a config.consumers.day_change.consume r.day_change_consumer h2 later,
        ready-Consumes a config.consumers.hour_change.consume r.hour_change_consumer h3 later,
      )
