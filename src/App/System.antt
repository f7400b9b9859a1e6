-- ===== src/App/System.antt =====
-- The channels of internal/app/init.go between the goroutines that use them, and who may move next.
-- The manager (manager_service.go), which is one goroutine, sends cleaning and restock requests, the
-- housekeepers (housekeeper_service.go) take the former and send wash requests, the launderers and the stockers
-- take theirs, each group as in App/Employee/Run. A send into a channel that is full is not possible,
-- and its sender waits. Of the work of a housekeeper this model keeps what it sends, one item at a
-- time; `App.Housekeeper.Laundry` says what that is. No code closes a channel.
pub mod Groups
pub mod Laundry
pub mod Settled
pub mod Ended
pub mod Gone
pub mod Stuck
pub mod Blocked
mod Tests
use kenshu_elaris_project_st.Base.{
  ℕ, ◌<◌, String, Bool, true, ◌≡◌, Option, some, List, [], ◌∷◌, ◌++◌, lookup, insert, length,
  if◌then◌else◌,
}
use kenshu_elaris_project_st.Domain.Documents.{CleaningRequest, WashRequest, RestockRequest}
use kenshu_elaris_project_st.App.Employee.Run.{
  Pool, Worker, selecting, handling, stopped, taken, finished, sent_to, halted,
}
use kenshu_elaris_project_st.App.Housekeeper.Laundry.{wash_orders}
use kenshu_elaris_project_st.App.Services.{
  Services, no_cleaning_request, no_wash_request, no_restock_request,
}
use kenshu_elaris_project_st.App.Services.Start.{start}

-- The capacities of the channels.
abbrev pub cleaning_capacity : ℕ
cleaning_capacity = 32

abbrev pub launderer_capacity : ℕ
launderer_capacity = 32

abbrev pub stocker_capacity : ℕ
stocker_capacity = 16

-- Where the goroutine of the manager is: at the `select` of its loop, at a send into one of its two
-- channels, or past the end of `Start`, and so of `Services.Start`.
pub data Manager : Type 0 where
  receiving : Manager
  dispatching : (request : CleaningRequest) → Manager
  restocking : (request : RestockRequest) → Manager
  returned : Manager

-- `owed` lists, for a housekeeper, the wash requests that its work has still to send. `ordered` only
-- records the wash requests of all works so far.
pub record System : Type 0 where
  pub manager : Manager
  pub housekeepers : Pool CleaningRequest
  pub launderers : Pool WashRequest
  pub stockers : Pool RestockRequest
  pub owed : List (String × List WashRequest)
  pub ordered : List WashRequest

-- What the work on a request is to send: nothing if the clock does not answer at its start.
abbrev pub orders_of : (clock_answers : Bool) → CleaningRequest → List WashRequest
orders_of clock_answers request = if clock_answers then wash_orders request else []

pub data Move : System → System → Type 0 where
  -- The manager receives a delivery that it can read, and the change of the day.
  request_received :
      (s : System) (request : CleaningRequest)
      → s.manager ≡ receiving
      → Move s (record s { manager = dispatching request })
  day_changed :
      (s : System) (request : RestockRequest)
      → s.manager ≡ receiving
      → Move s (record s { manager = restocking request })
  -- `s.cleaningCh <- cleaningRequest`.
  cleaning_sent :
      (s : System) (request : CleaningRequest)
      → s.manager ≡ dispatching request
      → length s.housekeepers.requests < cleaning_capacity
      → Move s (record s { manager = receiving; housekeepers = sent_to request s.housekeepers })
  -- `s.stockerCh <- domain.RestockRequest{ItemsName: items}`.
  restock_sent :
      (s : System) (request : RestockRequest)
      → s.manager ≡ restocking request
      → length s.stockers.requests < stocker_capacity
      → Move s (record s { manager = receiving; stockers = sent_to request s.stockers })
  -- The manager ends on the signal, or if the broker closes the channel of deliveries, which it may do
  -- at any time.
  manager_returns : (s : System) → s.manager ≡ receiving → Move s (record s { manager = returned })
  housekeeper_takes :
      (s : System) (name : String) (request : CleaningRequest) (rest : List CleaningRequest)
      (clock_answers : Bool)
      → lookup name s.housekeepers.workers ≡ some selecting
      → s.housekeepers.requests ≡ request ∷ rest
      → Move s (record s {
        housekeepers = taken name request rest s.housekeepers;
        owed = insert name (orders_of clock_answers request) s.owed;
        ordered = s.ordered ++ orders_of clock_answers request;
      })
  -- `h.laundererRequestChan <- laundryRequest`.
  wash_sent :
      (s : System) (name : String) (wash : WashRequest) (rest : List WashRequest)
      → lookup name s.owed ≡ some (wash ∷ rest)
      → length s.launderers.requests < launderer_capacity
      → Move s (record s { launderers = sent_to wash s.launderers; owed = insert name rest s.owed })
  housekeeper_finishes :
      (s : System) (name : String) (request : CleaningRequest)
      → lookup name s.housekeepers.workers ≡ some (handling request)
      → lookup name s.owed ≡ some []
      → Move s (record s { housekeepers = finished no_cleaning_request name s.housekeepers })
  housekeeper_stops :
      (s : System) (name : String)
      → lookup name s.housekeepers.workers ≡ some selecting
      → s.housekeepers.cancelled ≡ true
      → Move s (record s { housekeepers = halted name s.housekeepers })
  launderer_moves :
      (s : System) (after : Pool WashRequest)
      → Worker no_wash_request s.launderers after
      → Move s (record s { launderers = after })
  stocker_moves :
      (s : System) (after : Pool RestockRequest)
      → Worker no_restock_request s.stockers after
      → Move s (record s { stockers = after })
  -- The signal to end reaches all of them.
  signalled :
      (s : System)
      → Move s (record s {
        housekeepers = record s.housekeepers { cancelled = true };
        launderers = record s.launderers { cancelled = true };
        stockers = record s.stockers { cancelled = true };
      })

pub data Moves (s : System) : System → Type 0 where
  here : Moves s s
  step : {t u : System} → Moves s t → Move t u → Moves s u

pub then_moves : {s t u : System} → Moves s t → Moves t u → Moves s u
then_moves first here = first
then_moves first (step second last) = step (then_moves first second) last

-- The system at the start of the services.
abbrev pub opened : {C K S Q : Type 0} → Services C K S Q → System
opened services = record {
  manager = receiving;
  housekeepers = (start services).housekeepers;
  launderers = (start services).launderers;
  stockers = (start services).stockers;
  owed = [];
  ordered = [];
}

-- A property of a system that moves lead to.
pub record Reached (P : System → Type 0) (s : System) : Type 0 where
  pub end : System
  pub moves : Moves s end
  pub holds : P end
