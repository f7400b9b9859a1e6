-- ===== src/App/TimeEvents/Settle.antt =====
-- How the loop of the time events settles its deliveries.
use kenshu_elaris_project_st.Base.{
  ℕ, ℤ, ltb, String, ◌≡◌, refl, sym, ◌∙◌, Bool-cases, inl, inr, List, [], ◌∷◌, ◌++◌, append-nil,
  append_assoc,
}
use kenshu_elaris_project_st.Domain.Errors.{Result, ok, err}
use kenshu_elaris_project_st.Domain.Set.{values}
use kenshu_elaris_project_st.App.World.{World, Settlement, acked, nacked}
use kenshu_elaris_project_st.App.Delivery.{
  Delivery, Broker, ack_delivery, ack_delivery-settled, nack_delivery-settled,
}
use kenshu_elaris_project_st.App.Unmarshal.{Proto, unmarshal_time_event}
use kenshu_elaris_project_st.App.TimeEvents.{
  Notified, Event, context_done, hour_change, hour_closed, day_change, day_closed, elsewhere,
  length, send_or_skip, notify, notify_hour_change, notify_day_change, hour_received, day_received,
  other_goroutines, loop,
}

-- An event whose instant was read is acked, and any other is dropped.
abbrev pub settlement : ℕ → Result ℤ → Settlement
settlement tag (ok t) = acked tag
settlement tag (err e) = nacked tag

-- How the deliveries are to be settled that come before the end of the context or of a channel.
abbrev pub settlements : {D : Type 0} → Proto → List (Event D) → List Settlement
settlements p [] = []
settlements p (context_done ∷ events) = []
settlements p (hour_closed ∷ events) = []
settlements p (day_closed ∷ events) = []
settlements p (elsewhere f ∷ events) = settlements p events
settlements p (hour_change delivery ∷ events) =
    settlement delivery.tag (unmarshal_time_event p delivery.body) ∷ settlements p events
settlements p (day_change delivery ∷ events) =
    settlement delivery.tag (unmarshal_time_event p delivery.body) ∷ settlements p events

module _ {D : Type 0} (capacity : ℕ → ℕ) (p : Proto) (b : Broker (Notified D)) where
  send-settled :
      (name : String) (t : ℤ) (ch : ℕ) (w : World (Notified D))
      → (send_or_skip capacity name t ch w).1.settled ≡ w.settled
  unfolding send_or_skip
  send-settled name t ch w = elim (Bool-cases (ltb (length (w.ext.buffers ch)) (capacity ch))) [
    | inl room ↦ rw room refl
    | inr full ↦ rw full refl
  ]

  notify-settled :
      (t : ℤ) (channels : List ℕ) (name : String) (w : World (Notified D))
      → (notify capacity t channels name w).1.settled ≡ w.settled
  unfolding notify
  notify-settled t [] name w = refl
  notify-settled t (ch ∷ channels) name w =
      notify-settled t channels name (send_or_skip capacity name t ch w).1
      ∙ send-settled name t ch w

  hour-settled :
      (delivery : Delivery) (r : Result ℤ) (w : World (Notified D))
      → (hour_received capacity p b delivery r w).1.settled
        ≡ w.settled ++ settlement delivery.tag r ∷ []
  unfolding hour_received notify_hour_change
  hour-settled delivery (err e) w = nack_delivery-settled b "hourChangeEvent" delivery _
  hour-settled delivery (ok t) w =
      notify-settled t
        (values (ack_delivery b "hourChangeEvent" delivery w).1.ext.service.hour_change_channels)
        "hour change" (ack_delivery b "hourChangeEvent" delivery w).1
      ∙ ack_delivery-settled b "hourChangeEvent" delivery w

  day-settled :
      (delivery : Delivery) (r : Result ℤ) (w : World (Notified D))
      → (day_received capacity p b delivery r w).1.settled
        ≡ w.settled ++ settlement delivery.tag r ∷ []
  unfolding day_received notify_day_change
  day-settled delivery (err e) w = nack_delivery-settled b "dayChangeEvent" delivery _
  day-settled delivery (ok t) w =
      notify-settled t
        (values (ack_delivery b "dayChangeEvent" delivery w).1.ext.service.day_change_channels)
        "day change" (ack_delivery b "dayChangeEvent" delivery w).1
      ∙ ack_delivery-settled b "dayChangeEvent" delivery w

  -- Whatever other goroutines do in between and whatever the broker answers, the loop settles the
  -- deliveries that it receives before its end in their order, each exactly once: those whose
  -- instant is read are acked, and the others are nacked.
  pub loop-settled :
      (events : List (Event D)) (w : World (Notified D))
      → (loop capacity p b events w).1.settled ≡ w.settled ++ settlements p events
  unfolding loop other_goroutines
  loop-settled [] w = sym (append-nil w.settled)
  loop-settled (context_done ∷ events) w = sym (append-nil w.settled)
  loop-settled (hour_closed ∷ events) w = sym (append-nil w.settled)
  loop-settled (day_closed ∷ events) w = sym (append-nil w.settled)
  loop-settled (elsewhere f ∷ events) w = loop-settled events (record w { ext = f w.ext })
  loop-settled (hour_change delivery ∷ events) w =
      let r = unmarshal_time_event p delivery.body in
      loop-settled events (hour_received capacity p b delivery r w).1
      ∙ rw (hour-settled delivery r w) (append_assoc w.settled _ _)
  loop-settled (day_change delivery ∷ events) w =
      let r = unmarshal_time_event p delivery.body in
      loop-settled events (day_received capacity p b delivery r w).1
      ∙ rw (day-settled delivery r w) (append_assoc w.settled _ _)
