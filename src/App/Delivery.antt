-- ===== src/App/Delivery.antt =====
-- Deliveries of the broker, as the loops of the services take and settle them: the methods
-- `ackDelivery` and `nackDelivery`, which manager_service.go and
-- time_event_notification_service.go of internal/app both have.
use kenshu_elaris_project_st.Base.{
  ℕ, String, Option, none, some, List, [], ◌∷◌, ◌++◌, ◌≡◌, refl, concat,
}
use kenshu_elaris_project_st.Domain.Errors.{Error}
use kenshu_elaris_project_st.App.World.{
  failure, World, Settlement, acked, nacked, Action, ◌>>=◌, ◌>>◌, skip, call, write,
}

pub record Delivery : Type 0 where
  pub tag : ℕ
  pub body : List ℕ

-- The two methods of a delivery, by its tag; `Consume` of the port `MqConsumer` answers a channel,
-- whose deliveries are the events of the loops, or an error.
pub record Broker (D : Type 0) : Type 0 where
  pub ack : (tag : ℕ) → D → Option Error × D
  pub nack : (tag : ℕ) → D → Option Error × D

pub record MqConsumer (D : Type 0) : Type 0 where
  pub consume : D → Option Error × D

module _ {D : Type 0} (b : Broker D) where
  note : Settlement → Action D (Unit {0})
  note settlement w = (tt, record w { settled = w.settled ++ settlement ∷ [] })

  settle_answer : String → Option Error → Action D (Unit {0})
  settle_answer text none = skip
  settle_answer text (some e) = write (failure text e)

  unfoldable pub ack_delivery : (delivery_name : String) → Delivery → Action D (Unit {0})
  unfolding note settle_answer
  ack_delivery delivery_name delivery = do
    note (acked delivery.tag)
    answer ← call (b.ack delivery.tag)
    settle_answer (concat "failed to ack " delivery_name) answer

  unfoldable pub nack_delivery : (delivery_name : String) → Delivery → Action D (Unit {0})
  unfolding note settle_answer
  nack_delivery delivery_name delivery = do
    note (nacked delivery.tag)
    answer ← call (b.nack delivery.tag)
    settle_answer (concat "failed to nack " delivery_name) answer

  settle_answer-settled :
      (text : String) (e : Option Error) (w : World D)
      → ((settle_answer text e w).1.settled ≡ w.settled)
        × ((settle_answer text e w).1.cleanings ≡ w.cleanings)
        × ((settle_answer text e w).1.restocks ≡ w.restocks)
  unfolding settle_answer
  settle_answer-settled text none w = (refl, refl, refl)
  settle_answer-settled text (some e) w = (refl, refl, refl)

  pub ack_delivery-settled :
      (name : String) (delivery : Delivery) (w : World D)
      → (ack_delivery name delivery w).1.settled ≡ w.settled ++ acked delivery.tag ∷ []
  unfolding ack_delivery
  ack_delivery-settled name delivery w =
      (settle_answer-settled (concat "failed to ack " name) (b.ack delivery.tag w.ext).0 _).0

  pub nack_delivery-settled :
      (name : String) (delivery : Delivery) (w : World D)
      → (nack_delivery name delivery w).1.settled ≡ w.settled ++ nacked delivery.tag ∷ []
  unfolding nack_delivery
  nack_delivery-settled name delivery w =
      (settle_answer-settled (concat "failed to nack " name) (b.nack delivery.tag w.ext).0 _).0

  -- Settling sends nothing.
  pub ack_delivery-cleanings :
      (name : String) (delivery : Delivery) (w : World D)
      → ((ack_delivery name delivery w).1.cleanings ≡ w.cleanings)
        × ((ack_delivery name delivery w).1.restocks ≡ w.restocks)
  unfolding ack_delivery
  ack_delivery-cleanings name delivery w =
      let h = settle_answer-settled (concat "failed to ack " name) (b.ack delivery.tag w.ext).0 _ in
      (h.1, h.2)

  pub nack_delivery-cleanings :
      (name : String) (delivery : Delivery) (w : World D)
      → ((nack_delivery name delivery w).1.cleanings ≡ w.cleanings)
        × ((nack_delivery name delivery w).1.restocks ≡ w.restocks)
  unfolding nack_delivery
  nack_delivery-cleanings name delivery w =
      let h =
        settle_answer-settled (concat "failed to nack " name) (b.nack delivery.tag w.ext).0 _ in
      (h.1, h.2)
