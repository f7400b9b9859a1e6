-- ===== src/App/System/Stuck.antt =====
-- A housekeeper who waits for room in a channel that nobody reads any more.
pub mod Jam
use kenshu_elaris_project_st.Base.{
  ℕ, zero, suc, ◌+◌, ◌<◌, ◌≤◌, String, Bool, true, false, ◌≡◌, ◌≢◌, refl, ◌∙◌, sym, ap, subst, ◌⊎◌,
  inl, inr, Bool-cases, Option, none, some, List, [], ◌∷◌, ◌++◌, lookup, insert, str_eq, str_eq_iff,
  length, length-append, arith, if◌then◌else◌,
}
use kenshu_elaris_project_st.Domain.Documents.{CleaningRequest, WashRequest}
use kenshu_elaris_project_st.App.Employee.Laws.{lookup-insert_same, lookup-insert_other}
use kenshu_elaris_project_st.App.Employee.Run.{
  Phase, selecting, handling, stopped, Pool, Worker, takes, finishes, stops, taken, finished,
  sent_to, halted,
}
use kenshu_elaris_project_st.App.Services.{no_cleaning_request, no_wash_request}
use kenshu_elaris_project_st.App.System.Gone.{AllGone, no_Worker}
use kenshu_elaris_project_st.App.System.{
  System, Manager, receiving, dispatching, restocking, returned, Move, request_received,
  day_changed, manager_returns, cleaning_sent, restock_sent, housekeeper_takes, wash_sent,
  housekeeper_finishes, housekeeper_stops, launderer_moves, stocker_moves, signalled, Moves, here,
  step, launderer_capacity, cleaning_capacity, orders_of,
}

-- The housekeeper is inside work and has a wash request to send, the channel of the launderers is
-- full, and the goroutine of every launderer has ended.
pub record Stuck (name : String) (s : System) : Type 0 where
  pub request : CleaningRequest
  pub inside : lookup name s.housekeepers.workers ≡ some (handling request)
  pub wash : WashRequest
  pub rest : List WashRequest
  pub owes : lookup name s.owed ≡ some (wash ∷ rest)
  pub full : length s.launderers.requests ≡ launderer_capacity
  pub nobody : AllGone s.launderers.workers

-- Two keys with different values are different.
apart_by :
    {V : Type 0} (key other : String) (v w : V) (entries : List (String × V))
    → lookup key entries ≡ some v
    → lookup other entries ≡ some w
    → some v ≢ some w
    → str_eq key other ≡ false
apart_by key other v w entries has holds differ = elim (Bool-cases (str_eq key other)) [
  | inl same ↦
      absurd (differ (sym has ∙ ap (λ k. lookup k entries) ((str_eq_iff key other).0 same) ∙ holds))
  | inr apart ↦ apart
]

-- Stuck with other values at the places that matter.
moved :
    {name : String} {s : System} (t : System) (k : Stuck name s)
    → lookup name t.housekeepers.workers ≡ lookup name s.housekeepers.workers
    → lookup name t.owed ≡ lookup name s.owed
    → t.launderers.requests ≡ s.launderers.requests
    → t.launderers.workers ≡ s.launderers.workers
    → Stuck name t
moved t k same_phase same_owed same_requests same_workers = record {
  request = k.request;
  inside = same_phase ∙ k.inside;
  wash = k.wash;
  rest = k.rest;
  owes = same_owed ∙ k.owes;
  full = ap length same_requests ∙ k.full;
  nobody = rw same_workers k.nobody;
}

Move-Stuck : {s t : System} (name : String) → Move s t → Stuck name s → Stuck name t
Move-Stuck name (request_received s request ready) k = moved _ k refl refl refl refl
Move-Stuck name (day_changed s request ready) k = moved _ k refl refl refl refl
Move-Stuck name (manager_returns s ready) k = moved _ k refl refl refl refl
Move-Stuck name (cleaning_sent s request sending room) k = moved _ k refl refl refl refl
Move-Stuck name (restock_sent s request sending room) k = moved _ k refl refl refl refl
Move-Stuck name (housekeeper_takes s other request rest clock_answers at is) k =
    let apart : str_eq other name ≡ false =
      apart_by other name selecting (handling k.request) s.housekeepers.workers at k.inside
        (λ e. cc e) in
    moved _ k (lookup-insert_other other name (handling request) s.housekeepers.workers apart)
      (lookup-insert_other other name (orders_of clock_answers request) s.owed apart) refl refl
Move-Stuck name (wash_sent s other wash rest owes room) k = absurd (omega (arith, room, k.full))
Move-Stuck name (housekeeper_finishes s other request at done) k =
    let apart : str_eq other name ≡ false =
      apart_by other name [] (k.wash ∷ k.rest) s.owed done k.owes (λ e. cc e) in
    moved _ k (lookup-insert_other other name selecting s.housekeepers.workers apart) refl refl refl
Move-Stuck name (housekeeper_stops s other at cancelled) k =
    let apart : str_eq other name ≡ false =
      apart_by other name selecting (handling k.request) s.housekeepers.workers at k.inside
        (λ e. cc e) in
    moved _ k (lookup-insert_other other name stopped s.housekeepers.workers apart) refl refl refl
Move-Stuck name (launderer_moves s after worker) k = no_Worker k.nobody worker
Move-Stuck name (stocker_moves s after worker) k = moved _ k refl refl refl refl
Move-Stuck name (signalled s) k = moved _ k refl refl refl refl

pub Moves-Stuck : {s t : System} (name : String) → Moves s t → Stuck name s → Stuck name t
Moves-Stuck name here k = k
Moves-Stuck name (step moves move) k = Move-Stuck name move (Moves-Stuck name moves k)
