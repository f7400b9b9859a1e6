-- ===== src/App/Housekeeper.antt =====
-- internal/app/housekeeper_service.go but for its constructor. The name of the employee stands only
-- in log lines and spans, and is left out. The other employees work on the same stock and cottages at
-- the same time: each call of a repository is one step, for the mutex of the stock and the atomic
-- updates of the database, and between two of them the others may have changed anything there.
mod Cases
pub mod Retry
pub mod Served
pub mod Laundry
pub mod Status
mod Tests
use kenshu_elaris_project_st.Base.{ℤ, pos, String, Option, none, some, str_eq, if◌then◌else◌}
use kenshu_elaris_project_st.Domain.Errors.{Error, Result, ok, err, as_stock_insufficient}
use kenshu_elaris_project_st.Domain.Documents.{
  CleaningRequest, WashRequest, wine_bottle, aroma_candle, cleaning_item, tea_bags,
  status_prepared_for_guest, status_daily_cleaned, status_prepared_for_sleep, status_fully_cleaned,
}
use kenshu_elaris_project_st.Port.{Clock, CottageRepo, StockRepo}
use kenshu_elaris_project_st.App.World.{
  info, warning, failure, problem, World, Action, ◌>>=◌, ◌>>◌, skip, call, call_behind, write,
  send_wash,
}

pub record ImmediateRestocker (D : Type 0) : Type 0 where
  pub immediate_restock : (item : String) → D → Option Error × D

-- The type `housekeeper`. Its channel of wash requests is the one of `World`. `meanwhile` is no field of
-- it: it is what the other goroutines have done to the outside by the next call of a repository, which
-- may depend on all of the outside, a schedule in it included.
pub record Housekeeper (D : Type 0) : Type 0 where
  pub clock : Clock D
  pub cottage_repo : CottageRepo D
  pub stock_repo : StockRepo D
  pub stoker : ImmediateRestocker D
  pub meanwhile : D → D

module _ {D : Type 0} (h : Housekeeper D) where
  unfoldable pub action : String → Action D (Unit {0})
  action name = write (info name)

  -- What `actionConsumeItem` does with the answer of `ConsumeItem`.
  pub consume_answer : String → Option Error → Action D (Option Error)
  consume_answer name none w = (none, (write (info name) w).1)
  consume_answer name (some e) w = (some e, w)

  unfoldable pub action_consume_item : String → String → ℤ → Action D (Option Error)
  unfolding consume_answer
  action_consume_item name item quantity =
      call_behind h.meanwhile (h.stock_repo.consume_item item quantity) >>= consume_answer name

  pub log_failure : String → Option Error → Action D (Unit {0})
  log_failure text none = skip
  log_failure text (some e) = write (failure text e)

  -- The second attempt, behind the answer of `ImmediateRestock`.
  pub retry : String → String → ℤ → Option Error → Action D (Unit {0})
  unfolding log_failure action_consume_item
  retry name item quantity (some e) = write (failure "failed to restock item" e)
  retry name item quantity none =
      action_consume_item name item quantity >>= log_failure "failed to consume item after restock"

  -- What follows an error of the first attempt, as `errors.As` reads it.
  pub on_error : String → String → ℤ → Error → Option (String × ℤ) → Action D (Unit {0})
  unfolding retry
  on_error name item quantity e none = write (failure "failed to consume item" e)
  on_error name item quantity e (some stock_err) = do
    write (warning "stock item unavailable for housekeeper action, requesting restock")
    restocked ← call_behind h.meanwhile (h.stoker.immediate_restock item)
    retry name item quantity restocked

  pub after_first : String → String → ℤ → Option Error → Action D (Unit {0})
  unfolding on_error
  after_first name item quantity none = skip
  after_first name item quantity (some e) = on_error name item quantity e (as_stock_insufficient e)

  unfoldable pub action_consume_item_retry : String → String → ℤ → Action D (Unit {0})
  unfolding after_first action_consume_item
  action_consume_item_retry name item quantity =
      action_consume_item name item quantity >>= after_first name item quantity

  unfoldable pub update_cleaning_status : String → String → Action D (Unit {0})
  unfolding log_failure
  update_cleaning_status room_name cleaning_status =
      call_behind h.meanwhile (h.cottage_repo.update_cleaning_status room_name cleaning_status)
      >>= log_failure "failed to update cleaning status"

  unfoldable pub action_laundry : String → String → String → Action D (Unit {0})
  action_laundry name laundry_item room_name = do
    send_wash (record { room_name = room_name; item = laundry_item })
    write (info name)

  pub prepare_for_guest : String → Action D (Unit {0})
  prepare_for_guest room_name = do
    action_consume_item_retry "added wine bottle" wine_bottle (pos 1)
    action "added a vase of flower"
    action "added a welcoming message"
    action_consume_item_retry "added aroma candle" aroma_candle (pos 1)
    update_cleaning_status room_name status_prepared_for_guest

  pub daily_cleaning : String → Action D (Unit {0})
  daily_cleaning room_name = do
    action "trash taken out"
    action "bed arranged"
    action_consume_item_retry "bathroom cleaned" cleaning_item (pos 5)
    action_laundry "towels changed" "towels" room_name
    action "vacuum cleaned"
    update_cleaning_status room_name status_daily_cleaned

  pub full_cleaning : String → Action D (Unit {0})
  full_cleaning room_name = do
    action "trash taken out"
    action_laundry "towels changed" "towels" room_name
    action_laundry "linens changed" "linens" room_name
    action_consume_item_retry "bathroom cleaned" cleaning_item (pos 10)
    action "bedroom detailed cleaned"
    update_cleaning_status room_name status_fully_cleaned

  pub prepare_for_sleep : String → Action D (Unit {0})
  prepare_for_sleep room_name = do
    action "bed arranged for sleep"
    action_consume_item_retry "added calm tea bags" tea_bags (pos 1)
    action_consume_item_retry "added aroma candle" aroma_candle (pos 1)
    update_cleaning_status room_name status_prepared_for_sleep

  -- The `switch` of `work`.
  pub tasks : CleaningRequest → Action D (Unit {0})
  unfolding prepare_for_guest daily_cleaning full_cleaning prepare_for_sleep
  tasks request =
      if str_eq request.request_type "PREPARE_FOR_GUEST"
      then prepare_for_guest request.room_name
      else if str_eq request.request_type "DAILY_CLEANING"
      then daily_cleaning request.room_name
      else if str_eq request.request_type "FULL_CLEANING"
      then full_cleaning request.room_name
      else if str_eq request.request_type "PREPARE_FOR_SLEEP"
      then prepare_for_sleep request.room_name
      else write (problem "unknown cleaning request")

  -- What stands behind the second call of `Now`.
  finish : Result ℤ → Action D (Unit {0})
  finish (err e) = write (failure "failed to get current time" e)
  finish (ok finish_time) = write (info "housekeeper finished to workFn on cleaning request")

  start : CleaningRequest → Result ℤ → Action D (Unit {0})
  unfolding tasks finish
  start request (err e) = write (failure "failed to get current time" e)
  start request (ok start_time) = do
    write (info "housekeeper started to workFn on cleaning request")
    tasks request
    finish_time ← call h.clock.now
    finish finish_time

  unfoldable pub work : CleaningRequest → Action D (Unit {0})
  unfolding start
  work request = call h.clock.now >>= start request
