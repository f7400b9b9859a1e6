-- ===== src/App/System/Settled/Emptying.antt =====
-- How the employees empty the three channels of internal/app/init.go.
use kenshu_elaris_project_st.Base.{String, ◌≡◌, ◌≢◌, refl, ◌∙◌, ap, some, List, [], lookup}
use kenshu_elaris_project_st.Domain.Documents.{CleaningRequest, WashRequest, RestockRequest}
use kenshu_elaris_project_st.App.Employee.Run.{Phase, selecting, stopped, Pool}
use kenshu_elaris_project_st.App.Employee.Run.Progress.{WorkerRun-sent, Drained, Run-Drained, In}
use kenshu_elaris_project_st.App.Services.{no_wash_request, no_restock_request}
use kenshu_elaris_project_st.App.System.{System, Moves, then_moves}
use kenshu_elaris_project_st.App.System.Laundry.{Conserved}
use kenshu_elaris_project_st.App.System.Settled.Sending.{
  launderers-move, stockers-move, emptied, OwesNothing,
}
use kenshu_elaris_project_st.App.System.Settled.Serving.{Served, serve_from}
use kenshu_elaris_project_st.App.System.Settled.Clearing.{Cleared, clear}

-- Moves of the employees alone to where all channels are empty and the housekeepers that are named owe
-- nothing.
pub record Emptied (keeper launderer stocker : String) (names : List String) (s : System)
    : Type 0 where
  pub end : System
  pub moves : Moves s end
  pub no_cleaning : end.housekeepers.requests ≡ []
  pub no_washing : end.launderers.requests ≡ []
  pub no_restocking : end.stockers.requests ≡ []
  pub nothing_owed : (name : String) → In name names → OwesNothing name end
  pub no_more_cleaning : end.housekeepers.sent ≡ s.housekeepers.sent
  pub no_more_restocking : end.stockers.sent ≡ s.stockers.sent
  pub same_manager : end.manager ≡ s.manager
  pub keeper_ready : lookup keeper end.housekeepers.workers ≡ some selecting
  pub launderer_ready : lookup launderer end.launderers.workers ≡ some selecting
  pub stocker_ready : lookup stocker end.stockers.workers ≡ some selecting

pub Moves-Emptied :
    (s : System) (keeper launderer stocker : String) (names : List String)
    {phase : Phase CleaningRequest} {phase' : Phase WashRequest} {phase'' : Phase RestockRequest}
    → Conserved s
    → lookup keeper s.housekeepers.workers ≡ some phase
    → phase ≢ stopped
    → lookup launderer s.launderers.workers ≡ some phase'
    → phase' ≢ stopped
    → lookup stocker s.stockers.workers ≡ some phase''
    → phase'' ≢ stopped
    → Emptied keeper launderer stocker names s
Moves-Emptied s keeper launderer stocker names {phase} {phase'} {phase''} c keeps awake washes
      awake' restocks awake'' =
    let d1 : Drained no_wash_request launderer s.launderers =
      Run-Drained no_wash_request s.launderers launderer phase' washes awake' in
    let s1 : System = record s { launderers = d1.end } in
    let r2 : Served launderer keeper s1 =
      serve_from launderer keeper phase (lookup keeper s.owed) s1 d1.ready keeps awake refl
        (rw keeps at (c.at_work keeper)) in
    let r3 : Cleared launderer names r2.end = clear launderer names r2.end r2.waits in
    let d4 : Drained no_wash_request launderer r3.end.launderers =
      emptied launderer r3.end r3.waits in
    let s4 : System = record r3.end { launderers = d4.end } in
    let same : s4.stockers ≡ s.stockers = r3.same_stockers ∙ r2.same_stockers in
    let d5 : Drained no_restock_request stocker s4.stockers =
      Run-Drained no_restock_request s4.stockers stocker phase''
        (ap (λ (p : Pool RestockRequest). lookup stocker p.workers) same ∙ restocks) awake'' in
    record {
      end = record s4 { stockers = d5.end };
      moves =
          then_moves
            (then_moves (then_moves (then_moves (launderers-move s d1.run) r2.moves) r3.moves)
              (launderers-move r3.end d4.run))
            (stockers-move s4 d5.run);
      no_cleaning = ap (λ (p : Pool CleaningRequest). p.requests) r3.same_housekeepers ∙ r2.empty;
      no_washing = d4.empty;
      no_restocking = d5.empty;
      nothing_owed = r3.nothing;
      no_more_cleaning =
          ap (λ (p : Pool CleaningRequest). p.sent) r3.same_housekeepers ∙ r2.same_sent;
      no_more_restocking =
          WorkerRun-sent no_restock_request d5.run ∙ ap (λ (p : Pool RestockRequest). p.sent) same;
      same_manager = r3.same_manager ∙ r2.same_manager;
      keeper_ready =
          ap (λ (p : Pool CleaningRequest). lookup keeper p.workers) r3.same_housekeepers
          ∙ r2.ready;
      launderer_ready = d4.ready;
      stocker_ready = d5.ready;
    }
