-- ===== src/App/Launderer/Cycle.antt =====
-- When a washing cycle ends.
use kenshu_elaris_project_st.Base.{
  ℕ, ◌<◌, ℤ, pos, ◌+ℤ◌, ◌-ℤ◌, ◌≤ℤ◌, leb_ℤ, int_limit, ◌≡◌, true, false, List, [], ◌∷◌, ◌++◌, arith,
}
use kenshu_elaris_project_st.Domain.Errors.{Result, ok}
use kenshu_elaris_project_st.App.Launderer.{
  CycleEvent, hour, context_done, Progress, waiting, returned, sub, zero_time,
}

-- The duration stops at its bounds, but tells as well as the difference whether a cycle that fits
-- into it is over.
pub leb-sub :
    (n : ℕ) (start now : ℤ)
    → n < int_limit
    → leb_ℤ (pos n) (sub now start) ≡ leb_ℤ (start +ℤ pos n) now
unfolding sub ◌+ℤ◌ ◌-ℤ◌
leb-sub n start now small = ground arith

-- All events are hour changes before the instant.
abbrev pub Early : ℤ → List CycleEvent → Type 0
Early end [] = Unit
Early end (context_done ∷ events) = false ≡ true
Early end (hour current_time ∷ events) = (leb_ℤ end current_time ≡ false) × Early end events

-- How a cycle that is to last until `end` goes, by the events it receives.
pub data Ends (end : ℤ) (events : List CycleEvent) : Progress (Result ℤ) → Type 0 where
  still_washing : Early end events → Ends end events waiting
  over :
      (before after : List CycleEvent) (current_time : ℤ)
      → events ≡ before ++ hour current_time ∷ after
      → Early end before
      → end ≤ℤ current_time
      → Ends end events (returned (ok current_time))
  cancelled :
      (before after : List CycleEvent)
      → events ≡ before ++ context_done ∷ after
      → Early end before
      → Ends end events (returned (ok zero_time))
