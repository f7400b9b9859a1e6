-- ===== src/App/Launderer.antt =====
-- internal/app/launderer_service.go but for its constructor. As in App/Housekeeper, each call of the
-- stock is one step, and between two of them the others may have changed the stock.
pub mod Cycle
pub mod Soap
mod Tests
use kenshu_elaris_project_st.Base.{
  ℕ, ◌-◌, ◌*◌, ℤ, pos, negsuc, ◌-ℤ◌, leb_ℤ, int_limit, String, Option, none, some, List, [], ◌∷◌,
  lookup, concat, if◌then◌else◌,
}
use kenshu_elaris_project_st.Domain.Errors.{Error, Result, ok, err, plain, as_stock_insufficient}
use kenshu_elaris_project_st.Domain.Documents.{WashRequest, soap}
use kenshu_elaris_project_st.Port.{Clock, StockRepo}
use kenshu_elaris_project_st.App.World.{
  info, warning, failure, World, Action, ◌>>=◌, ◌>>◌, pure, call, call_behind, write,
}
use kenshu_elaris_project_st.App.Housekeeper.{ImmediateRestocker}
use kenshu_elaris_project_st.App.Registry.{TimeEventRegistry, time_event_hour_change}

-- `cycleDurationInHours` is a float64 that holds a whole number.
pub record WashConfig : Type 0 where
  pub soap : ℤ
  pub cycle_duration_in_hours : ℕ

abbrev pub wash_table : List (String × WashConfig)
wash_table =
    ("linens", record { soap = pos 20; cycle_duration_in_hours = 2 })
    ∷ ("towels", record { soap = pos 10; cycle_duration_in_hours = 1 })
    ∷ []

-- The type `launderer`. `meanwhile` is no field of it, as in App/Housekeeper.
pub record Launderer (D : Type 0) : Type 0 where
  pub clock : Clock D
  pub hour_change : TimeEventRegistry D
  pub stock_repo : StockRepo D
  pub stocker : ImmediateRestocker D
  pub meanwhile : D → D

-- What the `select` of the washing cycle receives: the end of the context, or an hour change.
pub data CycleEvent : Type 0 where
  context_done : CycleEvent
  hour : (current_time : ℤ) → CycleEvent

-- A call that still waits for an event, or one that came back.
pub data Progress (A : Type 0) : Type 0 where
  waiting : Progress A
  returned : A → Progress A

-- The nanoseconds of an hour.
abbrev pub hour_length : ℕ
hour_length = 3600000000000

-- `time.Time{}`, the first of January of the year 1.
abbrev pub zero_time : ℤ
zero_time = negsuc (62135596800 * 1000000000 - 1)

-- `Sub` of the package time: a duration is 64 bits wide, and stops at its bounds.
unfoldable pub sub : ℤ → ℤ → ℤ
sub t u =
    if leb_ℤ (pos int_limit) (t -ℤ u)
    then pos (int_limit - 1)
    else if leb_ℤ (t -ℤ u) (negsuc (int_limit - 1))
    then negsuc (int_limit - 1)
    else t -ℤ u

-- The loop of `washingCycle`. `Hours()` is the whole hours plus the rest's share of one, which in
-- float64 is at least a whole number of this size exactly when the nanoseconds are.
unfoldable pub cycle_end : ℤ → ℕ → List CycleEvent → Progress (Result ℤ)
cycle_end start_time hours [] = waiting
cycle_end start_time hours (context_done ∷ events) = returned (ok zero_time)
cycle_end start_time hours (hour current_time ∷ events) =
    let rest = cycle_end start_time hours events in
    if leb_ℤ (pos (hours * hour_length)) (sub current_time start_time)
    then returned (ok current_time)
    else rest

-- `ch` is the channel that `make` answers, and `events` what its `select` receives. A request enters at
-- most one cycle: `wash` is called again only when the soap was not taken.
module _ {D : Type 0} (l : Launderer D) (ch : ℕ) (events : List CycleEvent) where
  -- What is left to do once the loop is over: `Unregister` is deferred.
  pub leave_cycle : Progress (Result ℤ) → Action D (Progress (Result ℤ))
  leave_cycle waiting w = (waiting, w)
  leave_cycle (returned r) w = (
    returned r,
    record w { ext = l.hour_change.unregister time_event_hour_change (some ch) w.ext },
  )

  unfoldable pub washing_cycle : ℤ → ℕ → Action D (Progress (Result ℤ))
  unfolding leave_cycle cycle_end
  washing_cycle start_time hours w =
      leave_cycle (cycle_end start_time hours events)
        (record w { ext = l.hour_change.register time_event_hour_change (some ch) w.ext })

  -- What `wash` does once the cycle came back.
  pub washed : Progress (Result ℤ) → Action D (Progress (Option Error))
  washed waiting = pure waiting
  washed (returned (err e)) = pure (returned (some e))
  washed (returned (ok finish_time)) = do write (info "launderer is done"); pure (returned none)

  pub soap_taken : ℤ → ℕ → Option Error → Action D (Progress (Option Error))
  unfolding washed washing_cycle
  soap_taken start_time hours none = washing_cycle start_time hours >>= washed
  soap_taken start_time hours (some e) = pure (returned (some e))

  pub wash_with : String → Option WashConfig → ℤ → Action D (Progress (Option Error))
  unfolding soap_taken
  wash_with item none start_time =
      pure (returned (some (plain (concat "unsupported wash item: " item))))
  wash_with item (some wash_config) start_time =
      call_behind l.meanwhile (l.stock_repo.consume_item soap wash_config.soap)
      >>= soap_taken start_time wash_config.cycle_duration_in_hours

  unfoldable pub wash : String → ℤ → Action D (Progress (Option Error))
  unfolding wash_with
  wash item start_time = wash_with item (lookup item wash_table) start_time

  -- The end of `work`, behind the second wash.
  pub second_washed : Progress (Option Error) → Action D (Progress (Unit {0}))
  second_washed waiting = pure waiting
  second_washed (returned none) = pure (returned tt)
  second_washed (returned (some e)) = do
    write (failure "failed to wash item after restock" e)
    pure (returned tt)

  pub wash_again : String → ℤ → Option Error → Action D (Progress (Unit {0}))
  unfolding second_washed wash
  wash_again item start_time (some e) = do
    write (failure "failed to restock item" e)
    pure (returned tt)
  wash_again item start_time none = wash item start_time >>= second_washed

  -- What follows an error of the first wash, as `errors.As` reads it.
  pub wash_failed : String → ℤ → Error → Option (String × ℤ) → Action D (Progress (Unit {0}))
  unfolding wash_again
  wash_failed item start_time e none = do
    write (failure "failed to wash item" e)
    pure (returned tt)
  wash_failed item start_time e (some stock_err) = do
    write (warning "insufficient stock to wash item, requesting restock")
    restocked ← call_behind l.meanwhile (l.stocker.immediate_restock stock_err.0)
    wash_again item start_time restocked

  pub first_washed : String → ℤ → Progress (Option Error) → Action D (Progress (Unit {0}))
  unfolding wash_failed
  first_washed item start_time waiting = pure waiting
  first_washed item start_time (returned none) = pure (returned tt)
  first_washed item start_time (returned (some e)) =
      wash_failed item start_time e (as_stock_insufficient e)

  pub start_wash : WashRequest → Result ℤ → Action D (Progress (Unit {0}))
  unfolding first_washed wash
  start_wash request (err e) = do write (failure "failed to get current time" e); pure (returned tt)
  start_wash request (ok start_time) = do
    write (info "launderer started to workFn on washing request")
    washed_once ← wash request.item start_time
    first_washed request.item start_time washed_once

  unfoldable pub work : WashRequest → Action D (Progress (Unit {0}))
  unfolding start_wash
  work request = call l.clock.now >>= start_wash request
