-- ===== src/App/System/Groups.antt =====
-- The groups of employees and their channels within the whole.
use kenshu_elaris_project_st.Base.{
  ◌≤◌, String, false, ◌≡◌, refl, ◌∙◌, List, [], ◌∷◌, length, length-append, arith,
}
use kenshu_elaris_project_st.App.Employee.{new_service}
use kenshu_elaris_project_st.App.Employee.Laws.{size}
use kenshu_elaris_project_st.App.Employee.Run.{
  Pool, Worker, takes, finishes, stops, Worker-Step, sent_to, Step, Run, send, take, finish,
  stop_cancelled, cancel,
}
use kenshu_elaris_project_st.App.Employee.Run as group
use kenshu_elaris_project_st.App.Employee.Run.Invariant.{Consistent}
use kenshu_elaris_project_st.App.Services.{
  made, present, Services, new_services, no_cleaning_request, no_wash_request, no_restock_request,
}
use kenshu_elaris_project_st.App.Services.Laws.{given}
use kenshu_elaris_project_st.App.Services.Start.{start-Consistent}
use kenshu_elaris_project_st.App.System.{
  System, Manager, dispatching, restocking, returned, Move, request_received, day_changed,
  manager_returns, cleaning_sent, restock_sent, housekeeper_takes, wash_sent, housekeeper_finishes,
  housekeeper_stops, launderer_moves, stocker_moves, signalled, Moves, here, step, opened,
  cleaning_capacity, launderer_capacity, stocker_capacity,
}

-- No channel is closed, and none has more in it than it can hold.
pub record WithinCapacity (s : System) : Type 0 where
  pub cleaning_open : s.housekeepers.closed ≡ false
  pub launderer_open : s.launderers.closed ≡ false
  pub stocker_open : s.stockers.closed ≡ false
  pub cleaning_held : length s.housekeepers.requests ≤ cleaning_capacity
  pub launderer_held : length s.launderers.requests ≤ launderer_capacity
  pub stocker_held : length s.stockers.requests ≤ stocker_capacity

module _ {R : Type 0} (no_request : R) where
  Worker-closed : {p q : Pool R} → Worker no_request p q → q.closed ≡ p.closed
  Worker-closed (takes name request rest at is) = refl
  Worker-closed (finishes name request at) = refl
  Worker-closed (stops name at cancelled) = refl

  Worker-held : {p q : Pool R} → Worker no_request p q → length q.requests ≤ length p.requests
  Worker-held (takes name request rest at is) = rw is (omega arith)
  Worker-held (finishes name request at) = omega arith
  Worker-held (stops name at cancelled) = omega arith

-- The runs of the groups that a move makes.
abbrev Runs : System → System → Type 0
Runs s t =
    Run no_cleaning_request s.housekeepers t.housekeepers
    × Run no_wash_request s.launderers t.launderers
    × Run no_restock_request s.stockers t.stockers

one : {R : Type 0} {no_request : R} {p q : Pool R} → Step no_request p q → Run no_request p q
one s = group.step group.here s

Move-Runs : {s t : System} → Move s t → WithinCapacity s → Runs s t
Move-Runs (request_received s request ready) w = (group.here, group.here, group.here)
Move-Runs (day_changed s request ready) w = (group.here, group.here, group.here)
Move-Runs (manager_returns s ready) w = (group.here, group.here, group.here)
Move-Runs (cleaning_sent s request sending room) w =
    (one (send s.housekeepers request w.cleaning_open), group.here, group.here)
Move-Runs (restock_sent s request sending room) w =
    (group.here, group.here, one (send s.stockers request w.stocker_open))
Move-Runs (housekeeper_takes s name request rest clock_answers at is) w =
    (one (take s.housekeepers name request rest at is), group.here, group.here)
Move-Runs (wash_sent s name wash rest owes room) w =
    (group.here, one (send s.launderers wash w.launderer_open), group.here)
Move-Runs (housekeeper_finishes s name request at done) w =
    (one (finish s.housekeepers name request at), group.here, group.here)
Move-Runs (housekeeper_stops s name at cancelled) w =
    (one (stop_cancelled s.housekeepers name at cancelled), group.here, group.here)
Move-Runs (launderer_moves s after worker) w =
    (group.here, one (Worker-Step no_wash_request worker), group.here)
Move-Runs (stocker_moves s after worker) w =
    (group.here, group.here, one (Worker-Step no_restock_request worker))
Move-Runs (signalled s) w =
    (one (cancel s.housekeepers), one (cancel s.launderers), one (cancel s.stockers))

with_manager-WithinCapacity :
    (s : System) (manager : Manager)
    → WithinCapacity s
    → WithinCapacity (record s { manager = manager })
with_manager-WithinCapacity s manager w = record {
  cleaning_open = w.cleaning_open;
  launderer_open = w.launderer_open;
  stocker_open = w.stocker_open;
  cleaning_held = w.cleaning_held;
  launderer_held = w.launderer_held;
  stocker_held = w.stocker_held;
}

pub Move-WithinCapacity : {s t : System} → Move s t → WithinCapacity s → WithinCapacity t
Move-WithinCapacity (request_received s request ready) w =
    with_manager-WithinCapacity s (dispatching request) w
Move-WithinCapacity (day_changed s request ready) w =
    with_manager-WithinCapacity s (restocking request) w
Move-WithinCapacity (manager_returns s ready) w = with_manager-WithinCapacity s returned w
Move-WithinCapacity (cleaning_sent s request sending room) w = record {
  cleaning_open = w.cleaning_open;
  launderer_open = w.launderer_open;
  stocker_open = w.stocker_open;
  cleaning_held = omega (arith, length-append s.housekeepers.requests (request ∷ []), room);
  launderer_held = w.launderer_held;
  stocker_held = w.stocker_held;
}
Move-WithinCapacity (restock_sent s request sending room) w = record {
  cleaning_open = w.cleaning_open;
  launderer_open = w.launderer_open;
  stocker_open = w.stocker_open;
  cleaning_held = w.cleaning_held;
  launderer_held = w.launderer_held;
  stocker_held = omega (arith, length-append s.stockers.requests (request ∷ []), room);
}
Move-WithinCapacity (housekeeper_takes s name request rest clock_answers at is) w = record {
  cleaning_open = w.cleaning_open;
  launderer_open = w.launderer_open;
  stocker_open = w.stocker_open;
  cleaning_held = omega (arith, rw is at w.cleaning_held);
  launderer_held = w.launderer_held;
  stocker_held = w.stocker_held;
}
Move-WithinCapacity (wash_sent s name wash rest owes room) w = record {
  cleaning_open = w.cleaning_open;
  launderer_open = w.launderer_open;
  stocker_open = w.stocker_open;
  cleaning_held = w.cleaning_held;
  launderer_held = omega (arith, length-append s.launderers.requests (wash ∷ []), room);
  stocker_held = w.stocker_held;
}
Move-WithinCapacity (housekeeper_finishes s name request at done) w = record {
  cleaning_open = w.cleaning_open;
  launderer_open = w.launderer_open;
  stocker_open = w.stocker_open;
  cleaning_held = w.cleaning_held;
  launderer_held = w.launderer_held;
  stocker_held = w.stocker_held;
}
Move-WithinCapacity (housekeeper_stops s name at cancelled) w = record {
  cleaning_open = w.cleaning_open;
  launderer_open = w.launderer_open;
  stocker_open = w.stocker_open;
  cleaning_held = w.cleaning_held;
  launderer_held = w.launderer_held;
  stocker_held = w.stocker_held;
}
Move-WithinCapacity (launderer_moves s after worker) w = record {
  cleaning_open = w.cleaning_open;
  launderer_open = Worker-closed no_wash_request worker ∙ w.launderer_open;
  stocker_open = w.stocker_open;
  cleaning_held = w.cleaning_held;
  launderer_held = omega (arith, Worker-held no_wash_request worker, w.launderer_held);
  stocker_held = w.stocker_held;
}
Move-WithinCapacity (stocker_moves s after worker) w = record {
  cleaning_open = w.cleaning_open;
  launderer_open = w.launderer_open;
  stocker_open = Worker-closed no_restock_request worker ∙ w.stocker_open;
  cleaning_held = w.cleaning_held;
  launderer_held = w.launderer_held;
  stocker_held = omega (arith, Worker-held no_restock_request worker, w.stocker_held);
}
Move-WithinCapacity (signalled s) w = record {
  cleaning_open = w.cleaning_open;
  launderer_open = w.launderer_open;
  stocker_open = w.stocker_open;
  cleaning_held = w.cleaning_held;
  launderer_held = w.launderer_held;
  stocker_held = w.stocker_held;
}

then_run :
    {R : Type 0} {no_request : R} {p q r : Pool R}
    → Run no_request p q
    → Run no_request q r
    → Run no_request p r
then_run first group.here = first
then_run first (group.step second last) = group.step (then_run first second) last

Moves-Runs : {s t : System} → Moves s t → WithinCapacity s → Runs s t × WithinCapacity t
Moves-Runs here w = ((group.here, group.here, group.here), w)
Moves-Runs (step moves move) w =
    let ((h, l, k), before) = Moves-Runs moves w in
    let (h', l', k') = Move-Runs move before in
    ((then_run h h', then_run l l', then_run k k'), Move-WithinCapacity move before)

opened-WithinCapacity :
    {C K S Q : Type 0} (services : Services C K S Q) → WithinCapacity (opened services)
opened-WithinCapacity services = record {
  cleaning_open = refl;
  launderer_open = refl;
  stocker_open = refl;
  cleaning_held = omega arith;
  launderer_held = omega arith;
  stocker_held = omega arith;
}

-- If `NewServices` makes the services of a configuration, then at every moment after their start, in
-- whatever order the manager, the employees and the signal to end move: each group of employees is
-- consistent (its map tells of every employee of the configuration's list whether it works and on
-- what and how many requests it took, the idle and the working ones together are all of them, and
-- requests are taken in the order in which they were sent, each once), no channel is closed, and none
-- has more in it than its capacity.
pub Moves-Consistent :
    {C K S Q : Type 0} (stockers housekeepers launderers : List String) (cottage_repo : K)
    (stock_repo : S) (hours days cleanings : Q) (clock : C) (s : Services C K S Q)
    → new_services
        (given stockers housekeepers launderers)
        (present cottage_repo)
        (present stock_repo)
        (present hours)
        (present days)
        (present cleanings)
        (present clock)
      ≡ made s
    → {t : System} → Moves (opened s) t
    → Consistent no_cleaning_request
        (size (new_service no_cleaning_request housekeepers).employees)
        t.housekeepers
      × Consistent no_wash_request
          (size (new_service no_wash_request launderers).employees)
          t.launderers
      × Consistent no_restock_request
          (size (new_service no_restock_request stockers).employees)
          t.stockers
      × WithinCapacity t
Moves-Consistent stockers housekeepers launderers k st hours days cleanings clock s is moves =
    let ((h, l, r), within) = Moves-Runs moves (opened-WithinCapacity s) in
    let (h', l', r') =
      start-Consistent stockers housekeepers launderers k st hours days cleanings clock s is h l
        r in
    (h', l', r', within)
