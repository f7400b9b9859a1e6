-- ===== src/App/TimeEvents/Notify.antt =====
-- Which subscribers get an instant.
use kenshu_elaris_project_st.Base.{
  ℕ, ℤ, ltb, ◌==◌, ==_iff, String, false, ◌&&◌, ◌≡◌, refl, sym, subst, ◌∙◌, Bool-cases, inl, inr,
  List, [], ◌∷◌, ◌++◌, if◌then◌else◌, arith,
}
use kenshu_elaris_project_st.Domain.Set.{has, values}
use kenshu_elaris_project_st.Domain.Set.Laws.{Distinct}
use kenshu_elaris_project_st.App.World.{World}
use kenshu_elaris_project_st.App.TimeEvents.{
  Notified, length, send_or_skip, notify, notify_hour_change, notify_day_change,
}

-- What waits in a channel after a notification: one more instant, if it is among the subscribers
-- and has room.
abbrev pub after : (capacity : ℕ → ℕ) → ℤ → List ℕ → ℕ → List ℤ → List ℤ
after capacity current_time channels c waiting =
    if has ◌==◌ c channels && ltb (length waiting) (capacity c)
    then waiting ++ current_time ∷ []
    else waiting

module _ {D : Type 0} (capacity : ℕ → ℕ) where
  send-buffers :
      (name : String) (t : ℤ) (ch c : ℕ) (w : World (Notified D))
      → (send_or_skip capacity name t ch w).1.ext.buffers c ≡ (
          if (c == ch) && ltb (length (w.ext.buffers c)) (capacity c)
          then w.ext.buffers c ++ t ∷ []
          else w.ext.buffers c)
  unfolding send_or_skip
  send-buffers name t ch c w = elim (Bool-cases (ltb (length (w.ext.buffers ch)) (capacity ch))) [
    | inl room ↦ rw room (ground (arith, room))
    | inr full ↦ rw full (ground (arith, full))
  ]

  notify-buffers :
      (t : ℤ) (channels : List ℕ) (name : String) (w : World (Notified D)) (c : ℕ)
      → Distinct channels
      → (notify capacity t channels name w).1.ext.buffers c
        ≡ after capacity t channels c (w.ext.buffers c)
  unfolding notify has
  notify-buffers t [] name w c h = refl
  notify-buffers t (ch ∷ channels) name w c h =
      notify-buffers t channels name (send_or_skip capacity name t ch w).1 c h.1
      ∙ rw (send-buffers name t ch c w) (elim (Bool-cases (c == ch)) [
        | inl same ↦
            rw (same, subst (λ d. has ◌==◌ d channels ≡ false) (sym ((==_iff c ch).0 same)) h.0)
              (ground arith)
        | inr other ↦ rw other refl
      ])

  -- With no channel twice among the subscribers of an event, its notification, be it the hour change or
  -- the day change, puts the instant behind what waits in each channel subscribed to it that has room,
  -- passes over each that is full, and leaves every other channel alone; the order of the walk over
  -- the set does not show in it.
  pub change-buffers :
      (t : ℤ) (w : World (Notified D)) (c : ℕ)
      → Distinct (values w.ext.service.hour_change_channels)
      → Distinct (values w.ext.service.day_change_channels)
      → ((notify_hour_change capacity t w).1.ext.buffers c
          ≡ after capacity t (values w.ext.service.hour_change_channels) c (w.ext.buffers c))
        × ((notify_day_change capacity t w).1.ext.buffers c
            ≡ after capacity t (values w.ext.service.day_change_channels) c (w.ext.buffers c))
  unfolding notify_hour_change notify_day_change
  change-buffers t w c hours days = (
    notify-buffers t (values w.ext.service.hour_change_channels) "hour change" w c hours,
    notify-buffers t (values w.ext.service.day_change_channels) "day change" w c days,
  )
