-- ===== src/App/Manager.antt =====
-- internal/app/manager_service.go but for its constructor.
pub mod Select
pub mod Dispatch
use kenshu_elaris_project_st.Base.{
  ℕ, zero, suc, ◌+◌, ◌-◌, ltb, ℤ, String, Bool, true, false, Option, none, some, List, [], ◌∷◌,
  ◌++◌, if◌then◌else◌,
}
use kenshu_elaris_project_st.Domain.Errors.{Error, Result, ok, err}
use kenshu_elaris_project_st.Domain.Documents.{
  CleaningRequest, RestockRequest, managed_stock_item_names,
}
use kenshu_elaris_project_st.App.World.{
  info, failure, problem, World, Action, ◌>>=◌, ◌>>◌, skip, call, write, send_cleaning,
  send_restock,
}
use kenshu_elaris_project_st.App.Registry.{TimeEventRegistry, time_event_day_change}
use kenshu_elaris_project_st.App.Delivery.{
  Delivery, Broker, MqConsumer, ack_delivery, nack_delivery,
}
use kenshu_elaris_project_st.App.Unmarshal.{Proto, unmarshal_cleaning_request}

-- The channel to the housekeepers is the one of `World`; the one to the stockers may be nil.
pub record ManagerService (D : Type 0) : Type 0 where
  pub cleaning_event_consumer : MqConsumer D
  pub time_event_registry : TimeEventRegistry D
  pub stocker_ch : Bool

-- `items[i]`, and `items[i] = item`, where the index is in range; the callers stay in range.
abbrev pub get : ℕ → List String → Option String
get i [] = none
get zero (item ∷ items) = some item
get (suc i) (item ∷ items) = get i items

abbrev pub set : ℕ → String → List String → List String
set i new [] = []
set zero new (item ∷ items) = new ∷ items
set (suc i) new (item ∷ items) = item ∷ set i new items

swap_found : ℕ → ℕ → Option String → Option String → List String → List String
swap_found i j (some a) (some b) items = set j a (set i b items)
swap_found i j none b items = items
swap_found i j (some a) none items = items

-- The function that `rand.Shuffle` calls.
unfoldable pub swap : ℕ → ℕ → List String → List String
unfolding swap_found
swap i j items = swap_found i j (get i items) (get j items) items

-- `rand.Shuffle` calls the swap on some pairs of indices.
unfoldable pub shuffle : List (ℕ × ℕ) → List String → List String
unfolding swap
shuffle [] items = items
shuffle (pair ∷ pairs) items = shuffle pairs (swap pair.0 pair.1 items)

-- `items[:n]`.
abbrev pub take : ℕ → List String → List String
take zero items = []
take (suc n) [] = []
take (suc n) (item ∷ items) = item ∷ take n items

-- What package rand answers for one selection: the pairs of the shuffle, and `rand.IntN`.
pub record Draws : Type 0 where
  pub pairs : List (ℕ × ℕ)
  pub int_n : ℕ

unfoldable pub select_items_to_restock : Draws → List String
unfolding shuffle
select_items_to_restock draws =
    take (draws.int_n + 1) (shuffle draws.pairs managed_stock_item_names)

-- What the `select` of `Start` receives; `elsewhere` is a step of other goroutines in between.
pub data Event (D : Type 0) : Type 0 where
  context_done : Event D
  cleaning : Delivery → Event D
  cleaning_closed : Event D
  day_change : (draws : Draws) → Event D
  elsewhere : (D → D) → Event D

-- `ch` is the channel that `make` answers.
module _ {D : Type 0} (p : Proto) (b : Broker D) (s : ManagerService D) (ch : ℕ) where
  cleaning_received : Delivery → Result CleaningRequest → Action D (Unit {0})
  cleaning_received delivery (err e) = do
    write (failure "failed to unmarshalCleaningRequest cleaning request" e)
    nack_delivery b "cleaningRequest" delivery
  cleaning_received delivery (ok cleaning_request) = do
    send_cleaning cleaning_request
    ack_delivery b "cleaningRequest" delivery

  day_changed : Bool → Draws → Action D (Unit {0})
  day_changed false draws = write (problem "stocker channel is not configured")
  day_changed true draws = send_restock (record { items_name = select_items_to_restock draws })

  other_goroutines : (D → D) → Action D (Unit {0})
  other_goroutines f w = (tt, record w { ext = f w.ext })

  enter : Action D (Unit {0})
  enter w =
      (tt, record w { ext = s.time_event_registry.register time_event_day_change (some ch) w.ext })

  -- Back from the loop: `Unregister` is deferred.
  leave : Action D (Unit {0})
  leave w = (
    tt,
    record w { ext = s.time_event_registry.unregister time_event_day_change (some ch) w.ext },
  )

  -- The loop of `Start` over the events it receives; after the last of them it waits.
  pub loop : List (Event D) → Action D (Unit {0})
  unfolding cleaning_received day_changed other_goroutines leave
  loop [] = skip
  loop (context_done ∷ events) = leave
  loop (cleaning_closed ∷ events) = do write (info "cleaning event consumer closed"); leave
  loop (elsewhere f ∷ events) = do other_goroutines f; loop events
  loop (cleaning delivery ∷ events) = do
    cleaning_received delivery (unmarshal_cleaning_request p delivery.body)
    loop events
  loop (day_change draws ∷ events) = do day_changed s.stocker_ch draws; loop events

  consumed : List (Event D) → Option Error → Action D (Unit {0})
  unfolding loop enter
  consumed events (some e) = write (failure "failed to consume cleaning cleaningRequests" e)
  consumed events none = do enter; loop events

  unfoldable pub start : List (Event D) → Action D (Unit {0})
  unfolding consumed
  start events = call s.cleaning_event_consumer.consume >>= consumed events
