-- ===== src/App/Manager/Dispatch.antt =====
-- What the loop of the manager dispatches and how it settles its deliveries.
use kenshu_elaris_project_st.Base.{
  Bool, true, false, ◌≡◌, sym, ◌∙◌, ap, List, [], ◌∷◌, ◌++◌, append-nil, append_assoc, ℕ,
}
use kenshu_elaris_project_st.Domain.Errors.{Result, ok, err}
use kenshu_elaris_project_st.Domain.Documents.{CleaningRequest, RestockRequest}
use kenshu_elaris_project_st.App.World.{failure, World, Settlement, acked, nacked}
use kenshu_elaris_project_st.App.Delivery.{
  Delivery, Broker, ack_delivery, nack_delivery, ack_delivery-settled, nack_delivery-settled,
  ack_delivery-cleanings, nack_delivery-cleanings,
}
use kenshu_elaris_project_st.App.Unmarshal.{Proto, unmarshal_cleaning_request}
use kenshu_elaris_project_st.App.Manager.{
  ManagerService, Draws, select_items_to_restock, Event, context_done, cleaning, cleaning_closed,
  day_change, elsewhere, cleaning_received, day_changed, other_goroutines, leave, loop,
}

-- What was dispatched and settled: requests to the housekeepers, requests to the stockers, and
-- settlements, each in their order.
pub record Effect : Type 0 where
  pub cleanings : List CleaningRequest
  pub restocks : List RestockRequest
  pub settled : List Settlement

abbrev pub nothing : Effect
nothing = record { cleanings = []; restocks = []; settled = [] }

infixl 20 ◌⊕◌
abbrev pub ◌⊕◌ : Effect → Effect → Effect
a ⊕ b = record {
  cleanings = a.cleanings ++ b.cleanings;
  restocks = a.restocks ++ b.restocks;
  settled = a.settled ++ b.settled;
}

-- A request that was decoded goes out and its delivery is acked; any other is dropped.
abbrev pub of_delivery : ℕ → Result CleaningRequest → Effect
of_delivery tag (ok request) = record {
  cleanings = request ∷ [];
  restocks = [];
  settled = acked tag ∷ [];
}
of_delivery tag (err e) = record { cleanings = []; restocks = []; settled = nacked tag ∷ [] }

abbrev pub of_day : Bool → Draws → Effect
of_day false draws = nothing
of_day true draws = record {
  cleanings = [];
  restocks = record { items_name = select_items_to_restock draws } ∷ [];
  settled = [];
}

-- The effect that the events in front of the end of the context or of the channel are to have.
abbrev pub effect : {D : Type 0} → Proto → (stocker_ch : Bool) → List (Event D) → Effect
effect p stocker_ch [] = nothing
effect p stocker_ch (context_done ∷ events) = nothing
effect p stocker_ch (cleaning_closed ∷ events) = nothing
effect p stocker_ch (elsewhere f ∷ events) = effect p stocker_ch events
effect p stocker_ch (cleaning delivery ∷ events) =
    of_delivery delivery.tag (unmarshal_cleaning_request p delivery.body)
    ⊕ effect p stocker_ch events
effect p stocker_ch (day_change draws ∷ events) =
    of_day stocker_ch draws ⊕ effect p stocker_ch events

abbrev pub effects : {D : Type 0} → World D → Effect
effects w = record { cleanings = w.cleanings; restocks = w.restocks; settled = w.settled }

⊕-nothing : (a : Effect) → a ⊕ nothing ≡ a
⊕-nothing a = cc (append-nil a.cleanings, append-nil a.restocks, append-nil a.settled)

⊕_assoc : (a b c : Effect) → (a ⊕ b) ⊕ c ≡ a ⊕ (b ⊕ c)
⊕_assoc a b c = cc (
  append_assoc a.cleanings b.cleanings c.cleanings,
  append_assoc a.restocks b.restocks c.restocks,
  append_assoc a.settled b.settled c.settled,
)

made :
    {D : Type 0} (v : World D) (a : Effect) (w : World D)
    → v.cleanings ≡ w.cleanings ++ a.cleanings
    → v.restocks ≡ w.restocks ++ a.restocks
    → v.settled ≡ w.settled ++ a.settled
    → effects v ≡ effects w ⊕ a
made v a w sent ordered done = cc (sent, ordered, done)

module _ {D : Type 0} (p : Proto) (b : Broker D) (s : ManagerService D) (ch : ℕ) where
  received-effect :
      (delivery : Delivery) (r : Result CleaningRequest) (w : World D)
      → effects (cleaning_received p b s ch delivery r w).1 ≡ effects w ⊕ of_delivery delivery.tag r
  unfolding cleaning_received
  received-effect delivery (err e) w =
      let v = record w {
        log = w.log ++ failure "failed to unmarshalCleaningRequest cleaning request" e ∷ [];
      } in
      made (nack_delivery b "cleaningRequest" delivery v).1
        (record { cleanings = []; restocks = []; settled = nacked delivery.tag ∷ [] }) w
        ((nack_delivery-cleanings b "cleaningRequest" delivery v).0 ∙ sym (append-nil w.cleanings))
        ((nack_delivery-cleanings b "cleaningRequest" delivery v).1 ∙ sym (append-nil w.restocks))
        (nack_delivery-settled b "cleaningRequest" delivery v)
  received-effect delivery (ok request) w =
      let v = record w { cleanings = w.cleanings ++ request ∷ [] } in
      made (ack_delivery b "cleaningRequest" delivery v).1
        (record { cleanings = request ∷ []; restocks = []; settled = acked delivery.tag ∷ [] }) w
        (ack_delivery-cleanings b "cleaningRequest" delivery v).0
        ((ack_delivery-cleanings b "cleaningRequest" delivery v).1 ∙ sym (append-nil w.restocks))
        (ack_delivery-settled b "cleaningRequest" delivery v)

  day-effect :
      (stocker_ch : Bool) (draws : Draws) (w : World D)
      → effects (day_changed p b s ch stocker_ch draws w).1 ≡ effects w ⊕ of_day stocker_ch draws
  unfolding day_changed
  day-effect false draws w = sym (⊕-nothing (effects w))
  day-effect true draws w = cc (append-nil w.cleanings, append-nil w.settled)

  -- Whatever other goroutines do in between and whatever the broker answers: of the events in front
  -- of the end of the context or of the channel, each delivery with a request that can be read is
  -- sent on to the housekeepers and acked, each other delivery is nacked and sends nothing, and each
  -- change of the day sends the stockers one request with the items selected for it, if their channel
  -- is configured; all of it in the order of the events, and nothing else is sent or settled.
  pub loop-effect :
      (events : List (Event D)) (w : World D)
      → effects (loop p b s ch events w).1 ≡ effects w ⊕ effect p s.stocker_ch events
  unfolding loop other_goroutines leave
  loop-effect [] w = sym (⊕-nothing (effects w))
  loop-effect (context_done ∷ events) w = sym (⊕-nothing (effects w))
  loop-effect (cleaning_closed ∷ events) w = sym (⊕-nothing (effects w))
  loop-effect (elsewhere f ∷ events) w = loop-effect events (record w { ext = f w.ext })
  loop-effect (cleaning delivery ∷ events) w =
      let r = unmarshal_cleaning_request p delivery.body in
      loop-effect events (cleaning_received p b s ch delivery r w).1
      ∙ ap (λ a. a ⊕ effect p s.stocker_ch events) (received-effect delivery r w)
      ∙ ⊕_assoc (effects w) (of_delivery delivery.tag r) (effect p s.stocker_ch events)
  loop-effect (day_change draws ∷ events) w =
      loop-effect events (day_changed p b s ch s.stocker_ch draws w).1
      ∙ ap (λ a. a ⊕ effect p s.stocker_ch events) (day-effect s.stocker_ch draws w)
      ∙ ⊕_assoc (effects w) (of_day s.stocker_ch draws) (effect p s.stocker_ch events)
