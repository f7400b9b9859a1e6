-- ===== src/App/System/Ended.antt =====
-- How all goroutines that internal/app/init.go starts come to their end.
mod Keepers
use kenshu_elaris_project_st.Base.{
  String, Bool, true, false, ◌≡◌, ◌≢◌, refl, ◌∙◌, sym, ap, subst, ◌⊎◌, inl, inr, Bool-cases, Option,
  none, some, List, [], ◌∷◌, ◌++◌, lookup, insert, str_eq, str_eq_iff,
}
use kenshu_elaris_project_st.App.Employee.Laws.{lookup-insert_same, lookup-insert_other}
use kenshu_elaris_project_st.App.Employee.Run.{
  Phase, selecting, handling, stopped, Pool, Worker, finishes, stops, finished, halted,
}
use kenshu_elaris_project_st.App.Employee.Run.Progress.{WorkerRun, at_work, works, In}
use kenshu_elaris_project_st.Domain.Documents.{CleaningRequest, WashRequest, RestockRequest}
use kenshu_elaris_project_st.App.Services.{no_cleaning_request, no_wash_request, no_restock_request}
use kenshu_elaris_project_st.App.System.{
  System, Manager, receiving, returned, Move, manager_returns, housekeeper_finishes,
  housekeeper_stops, signalled, Moves, here, step, then_moves,
}
use kenshu_elaris_project_st.App.System.Laundry.{Conserved, OwesAtWork, Moves-keep}
use kenshu_elaris_project_st.App.System.Settled.{Settled, Moves-Settled}
use kenshu_elaris_project_st.App.System.Settled.Sending.{
  OwesNothing, launderers-move, stockers-move,
}
use kenshu_elaris_project_st.App.Employee.Run.Ended.{IsGone, stays-IsGone, Ended, Run-Ended}
use kenshu_elaris_project_st.App.System.Ended.Keepers.{KeepersEnded, end_keepers}

-- An end at which the manager's `Start` has returned, the named employees are gone, and no request waits
-- in any channel.
pub record Over (keepers launderers stockers : List String) (s : System) : Type 0 where
  pub end : System
  pub moves : Moves s end
  pub manager_returned : end.manager ≡ returned
  pub keepers_gone : (name : String) → In name keepers → IsGone name end.housekeepers.workers
  pub launderers_gone : (name : String) → In name launderers → IsGone name end.launderers.workers
  pub stockers_gone : (name : String) → In name stockers → IsGone name end.stockers.workers
  pub no_cleaning : end.housekeepers.requests ≡ []
  pub no_washing : end.launderers.requests ≡ []
  pub no_restocking : end.stockers.requests ≡ []

-- The manager returns, and nothing else moves.
returns :
    (s : System)
    → (s.manager ≡ receiving) ⊎ (s.manager ≡ returned)
    → Moves s (record s { manager = returned })
returns s (inl waits) = step here (manager_returns s waits)
returns s (inr before) = subst (λ m. Moves s (record s { manager = m })) before here

-- From any moment at which the laundry is in order, and one housekeeper, one launderer and one
-- stocker have not ended, the hotel can end in good order: there are moves to a moment at which the
-- manager's `Start` has returned, the goroutines of all the employees that are named have ended, and
-- no request is left in a channel.
pub Moves-Over :
    (s : System) (keeper launderer stocker : String) (keepers launderers stockers : List String)
    {phase : Phase CleaningRequest} {phase' : Phase WashRequest} {phase'' : Phase RestockRequest}
    → Conserved s
    → lookup keeper s.housekeepers.workers ≡ some phase
    → phase ≢ stopped
    → lookup launderer s.launderers.workers ≡ some phase'
    → phase' ≢ stopped
    → lookup stocker s.stockers.workers ≡ some phase''
    → phase'' ≢ stopped
    → Over keepers launderers stockers s
Moves-Over s keeper launderer stocker keepers launderers stockers c keeps awake washes awake'
      restocks awake'' =
    let d : Settled keepers s =
      Moves-Settled s keeper launderer stocker keepers c keeps awake washes awake' restocks
        awake'' in
    let t : System = record d.end { manager = returned } in
    let u : System = record t {
      housekeepers = record t.housekeepers { cancelled = true };
      launderers = record t.launderers { cancelled = true };
      stockers = record t.stockers { cancelled = true };
    } in
    let first : Moves s u =
      step (then_moves d.moves (returns d.end d.manager_rests)) (signalled t) in
    let k : KeepersEnded keepers u =
      end_keepers keepers u (Moves-keep first c) d.nothing_owed refl in
    let l : Ended no_wash_request launderers k.end.launderers =
      Run-Ended no_wash_request launderers k.end.launderers
        (ap (λ (p : Pool WashRequest). p.cancelled) k.same.launderers) in
    let v : System = record k.end { launderers = l.end } in
    let m : Ended no_restock_request stockers v.stockers =
      Run-Ended no_restock_request stockers v.stockers
        (ap (λ (p : Pool RestockRequest). p.cancelled) k.same.stockers) in
    record {
      end = record v { stockers = m.end };
      moves =
          then_moves (then_moves (then_moves first k.moves) (launderers-move k.end l.run))
            (stockers-move v m.run);
      manager_returned = k.same.manager;
      keepers_gone = k.gone;
      launderers_gone = l.gone;
      stockers_gone = m.gone;
      no_cleaning = k.same.requests ∙ d.no_cleaning;
      no_washing =
          l.same_requests
          ∙ ap (λ (p : Pool WashRequest). p.requests) k.same.launderers
          ∙ d.no_washing;
      no_restocking =
          m.same_requests
          ∙ ap (λ (p : Pool RestockRequest). p.requests) k.same.stockers
          ∙ d.no_restocking;
    }
