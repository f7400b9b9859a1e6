-- ===== src/Mq/Producer/Laws.antt =====
-- What a producer sends.
use kenshu_elaris_project_st.Base.{
  ℕ, String, true, Bool-cases, ◌≡◌, refl, ap, subst, ◌∙◌, ◌⊎◌, inl, inr, Option, none, some, List,
  [], ◌∷◌, ◌++◌, str_eq,
}
use kenshu_elaris_project_st.Domain.Errors.{Error, Result, ok, err}
use kenshu_elaris_project_st.Config.{ExchangeConfig, PublishConfig}
use kenshu_elaris_project_st.App.World.{World, Action}
use kenshu_elaris_project_st.Mq.Amqp.{Amqp, Publishing, Wire, library}
use kenshu_elaris_project_st.Mq.Channel.Kept.{KeptByChannel}
use kenshu_elaris_project_st.Mq.Consumer.{usable_channel}
use kenshu_elaris_project_st.Mq.Consumer.Kept.{usable_channel-Kept}
use kenshu_elaris_project_st.Mq.Producer.{
  RabbitmqProducer, kind_or_direct, warn_kind, declare_on, declare_exchange, published,
  publish_payload, publish_on, publish,
}

-- What one call of `PublishWithContext` is given.
pub record Message : Type 0 where
  pub exchange : String
  pub routing_key : String
  pub config : PublishConfig
  pub message : Publishing

abbrev pub with_body : List ℕ → Publishing
with_body payload = record {
  content_type = "application/protobuf";
  body = payload;
  persistent = true;
}

abbrev pub message_of : (exchange : String) → PublishConfig → String → List ℕ → Message
message_of exchange config routing_key payload = record {
  exchange = exchange;
  routing_key = routing_key;
  config = config;
  message = with_body payload;
}

-- `sent` lists what the calls of `PublishWithContext` were given, oldest first, whatever they answered.
-- What of it reaches the broker is not said: the library publishes without waiting for an answer.
pub record Records {D : Type 0} (a : Amqp D) (sent : D → List Message) : Type 0 where
  pub by_channel : KeptByChannel a sent
  pub declare_keeps :
      (ch : ℕ) (name kind : String) (config : ExchangeConfig) (x : D)
      → sent (a.exchange_declare ch name kind config x).1 ≡ sent x
  pub publish_records :
      (ch : ℕ) (exchange routing_key : String) (config : PublishConfig) (message : Publishing)
      (x : D)
      → sent (a.publish_with_context ch exchange routing_key config message x).1
        ≡ sent x
          ++ record {
            exchange = exchange;
            routing_key = routing_key;
            config = config;
            message = message;
          }
            ∷ []

module _ {D : Type 0} (a : Amqp D) {sent : D → List Message} (r : Records a sent) where
  -- What a publication on an exchange, of what `marshal` answers, has sent.
  abbrev pub Published :
      String
      → PublishConfig
      → String
      → Result (List ℕ)
      → List Message
      → Option Error
      → List Message
      → Type 0
  Published exchange config routing_key marshalled before none after =
      (payload : List ℕ) × (marshalled ≡ ok payload)
      × (after ≡ before ++ message_of exchange config routing_key payload ∷ [])
  Published exchange config routing_key marshalled before (some e) after =
      (after ≡ before)
      ⊎ ((payload : List ℕ) × (marshalled ≡ ok payload)
          × (after ≡ before ++ message_of exchange config routing_key payload ∷ []))

  published-Published :
      (exchange : String) (config : PublishConfig) (routing_key : String) (payload : List ℕ)
      (answer : Option Error) (x y : D) (w : World (Wire D))
      → w.ext.outside ≡ y
      → sent y ≡ sent x ++ message_of exchange config routing_key payload ∷ []
      → let (e, v) = published a answer w in
        Published exchange config routing_key (ok payload) (sent x) e (sent v.ext.outside)
  unfolding published
  published-Published exchange config routing_key payload none x y w is h =
      (payload, refl, ap sent is ∙ h)
  published-Published exchange config routing_key payload (some e) x y w is more =
      inr (payload, refl, ap sent is ∙ more)

  payload-Published :
      (p : RabbitmqProducer) (ch : ℕ) (routing_key : String) (marshalled : Result (List ℕ))
      (w : World (Wire D))
      → let (e, v) = publish_payload a p ch routing_key marshalled w in
        Published p.exchange_name p.publish_config routing_key marshalled
          (sent w.ext.outside)
          e
          (sent v.ext.outside)
  unfolding publish_payload
  payload-Published p ch routing_key (err e) w = inl refl
  payload-Published p ch routing_key (ok payload) w =
      let call : Action (Wire D) (Option Error) = library (
        a.publish_with_context ch p.exchange_name routing_key p.publish_config
          (with_body payload)) in
      published-Published p.exchange_name p.publish_config routing_key payload (call w).0
        w.ext.outside _ (call w).1 refl
        (r.publish_records ch p.exchange_name routing_key p.publish_config (with_body payload)
          w.ext.outside)

  publish_on-Published :
      (p : RabbitmqProducer) (marshalled : Result (List ℕ)) (routing_key : String)
      (channel : Result ℕ) (w : World (Wire D))
      → let (q, v) = publish_on a p marshalled routing_key channel w in
        Published p.exchange_name p.publish_config routing_key marshalled
          (sent w.ext.outside)
          q.0
          (sent v.ext.outside)
  unfolding publish_on
  publish_on-Published p marshalled routing_key (err e) w = inl refl
  publish_on-Published p marshalled routing_key (ok ch) w =
      payload-Published p ch routing_key marshalled w

  publish-Published :
      {M : Type 0} (marshal : M → Result (List ℕ)) (p : RabbitmqProducer) (message : M)
      (routing_key : String) (w : World (Wire D))
      → let (q, v) = publish a marshal p message routing_key w in
        Published p.exchange_name p.publish_config routing_key
          (marshal message)
          (sent w.ext.outside)
          q.0
          (sent v.ext.outside)
  unfolding publish
  publish-Published marshal p message routing_key w =
      let (channel, v) = usable_channel a p.channel w in
      let (q, z) = publish_on a p (marshal message) routing_key channel v in
      subst
        (λ before.
          Published p.exchange_name p.publish_config routing_key (marshal message) before q.0
            (sent z.ext.outside))
        (usable_channel-Kept a r.by_channel p.channel w)
        (publish_on-Published p (marshal message) routing_key channel v)

  -- The producer has the exchange, and nothing was sent.
  abbrev Declares :
      RabbitmqProducer
      → ExchangeConfig
      → World (Wire D)
      → (Option Error × RabbitmqProducer) × World (Wire D)
      → Type 0
  Declares p config w answer =
      (answer.0.1.exchange_name ≡ config.name)
      × (answer.0.1.publish_config ≡ p.publish_config)
      × (sent answer.1.ext.outside ≡ sent w.ext.outside)

  declare_on-Declares :
      (p : RabbitmqProducer) (config : ExchangeConfig) (channel : Result ℕ) (w : World (Wire D))
      → p.exchange_name ≡ config.name
      → Declares p config w (declare_on a p config channel w)
  unfolding declare_on
  declare_on-Declares p config (err e) w named = (named, refl, refl)
  declare_on-Declares p config (ok ch) w named =
      (named, refl, r.declare_keeps ch p.exchange_name p.exchange_kind config w.ext.outside)

  warned-Kept : (kind : String) (w : World (Wire D)) → (warn_kind a kind w).1.ext ≡ w.ext
  unfolding warn_kind
  warned-Kept kind w = elim (Bool-cases (str_eq kind "")) [
    | inl unnamed ↦ rw unnamed refl
    | inr named ↦ rw named refl
  ]

  declare_exchange-Declares :
      (p : RabbitmqProducer) (config : ExchangeConfig) (w : World (Wire D))
      → Declares p config w (declare_exchange a p config w)
  unfolding declare_exchange
  declare_exchange-Declares p config w =
      let v : World (Wire D) = (warn_kind a config.kind w).1 in
      let (channel, z) = usable_channel a p.channel v in
      let q : RabbitmqProducer = record p {
        exchange_name = config.name;
        exchange_kind = kind_or_direct config.kind;
      } in
      let (named, same, kept) = declare_on-Declares q config channel z refl in
      (
        named,
        same,
        kept
            ∙ usable_channel-Kept a r.by_channel p.channel v
            ∙ ap (λ x. sent x.outside) (warned-Kept config.kind w),
      )

  -- If `sent` lists what the calls of `PublishWithContext` were given: behind a `DeclareExchange`, with
  -- an error as without, which makes no such call, a `Publish` that answers nil has made exactly one,
  -- with the exchange that was declared, the routing key, the configuration of the publisher, and the
  -- bytes of the message, marked as persistent; one that answers an error has made this call or none,
  -- and none if the message has no bytes.
  pub declare_publish-Published :
      {M : Type 0} (marshal : M → Result (List ℕ)) (p : RabbitmqProducer) (config : ExchangeConfig)
      (message : M) (routing_key : String) (w : World (Wire D))
      → let (d, v) = declare_exchange a p config w in
        let (q, z) = publish a marshal d.1 message routing_key v in
        Published config.name p.publish_config routing_key
          (marshal message)
          (sent w.ext.outside)
          q.0
          (sent z.ext.outside)
  declare_publish-Published marshal p config message routing_key w =
      let (d, v) = declare_exchange a p config w in
      let (q, z) = publish a marshal d.1 message routing_key v in
      let (named, same, kept) = declare_exchange-Declares p config w in
      subst
        (λ (s : String × PublishConfig × List Message).
          Published s.0 s.1 routing_key (marshal message) s.2 q.0 (sent z.ext.outside))
        (λ i. (named i, same i, kept i)) (publish-Published marshal d.1 message routing_key v)
