-- ===== src/App/System/Settled/Sending.antt =====
-- How the launderers make room for what a housekeeper of internal/app/housekeeper_service.go sends.
use kenshu_elaris_project_st.Base.{
  ◌<◌, String, false, ◌≡◌, refl, ◌∙◌, ◌⊎◌, none, some, List, [], ◌∷◌, lookup, insert, str_eq,
  length, arith,
}
use kenshu_elaris_project_st.Domain.Documents.{WashRequest, RestockRequest}
use kenshu_elaris_project_st.App.Employee.Laws.{lookup-insert_same, lookup-insert_other}
use kenshu_elaris_project_st.App.Employee.Run.{selecting, Pool, sent_to}
use kenshu_elaris_project_st.App.Employee.Run.Progress.{
  WorkerRun, at_work, works, Drained, Run-Drained,
}
use kenshu_elaris_project_st.App.Services.{no_wash_request, no_restock_request}
use kenshu_elaris_project_st.App.System.{
  System, wash_sent, launderer_moves, stocker_moves, Moves, here, step, then_moves,
  launderer_capacity,
}

pub launderers-move :
    (s : System) {p q : Pool WashRequest}
    → WorkerRun no_wash_request p q
    → Moves (record s { launderers = p }) (record s { launderers = q })
launderers-move s at_work = here
launderers-move s (works {q = q} {r = r} run worker) =
    step (launderers-move s run) (launderer_moves (record s { launderers = q }) r worker)

pub stockers-move :
    (s : System) {p q : Pool RestockRequest}
    → WorkerRun no_restock_request p q
    → Moves (record s { stockers = p }) (record s { stockers = q })
stockers-move s at_work = here
stockers-move s (works {q = q} {r = r} run worker) =
    step (stockers-move s run) (stocker_moves (record s { stockers = q }) r worker)

-- The launderer waits for a request.
abbrev pub Waits : String → System → Type 0
Waits launderer s = lookup launderer s.launderers.workers ≡ some selecting

-- The launderers alone empty their channel.
pub emptied :
    (launderer : String) (s : System)
    → Waits launderer s
    → Drained no_wash_request launderer s.launderers
emptied launderer s at = Run-Drained no_wash_request s.launderers launderer selecting at (λ e. cc e)

-- A housekeeper has nothing to send.
abbrev pub OwesNothing : String → System → Type 0
OwesNothing name s = (lookup name s.owed ≡ none) ⊎ (lookup name s.owed ≡ some [])

-- Moves to where a housekeeper owes nothing, which leave the rest of the hotel alone.
pub record Sent (launderer name : String) (s : System) : Type 0 where
  pub end : System
  pub moves : Moves s end
  pub nothing : lookup name end.owed ≡ some []
  pub waits : Waits launderer end
  pub same_housekeepers : end.housekeepers ≡ s.housekeepers
  pub same_stockers : end.stockers ≡ s.stockers
  pub same_manager : end.manager ≡ s.manager
  pub others :
      (other : String) → str_eq name other ≡ false → lookup other end.owed ≡ lookup other s.owed

pub send_all :
    (launderer name : String) (washes : List WashRequest) (s : System)
    → Waits launderer s
    → lookup name s.owed ≡ some washes
    → Sent launderer name s
send_all launderer name [] s at owes = record {
  end = s;
  moves = here;
  nothing = owes;
  waits = at;
  same_housekeepers = refl;
  same_stockers = refl;
  same_manager = refl;
  others = λ other apart. refl;
}
send_all launderer name (wash ∷ washes) s at owes =
    let d : Drained no_wash_request launderer s.launderers = emptied launderer s at in
    let t : System = record s { launderers = d.end } in
    let u : System = record t {
      launderers = sent_to wash t.launderers;
      owed = insert name washes t.owed;
    } in
    let room : length t.launderers.requests < launderer_capacity = rw d.empty (omega arith) in
    let r : Sent launderer name u =
      send_all launderer name washes u d.ready (lookup-insert_same name washes s.owed) in
    record {
      end = r.end;
      moves =
          then_moves (step (launderers-move s d.run) (wash_sent t name wash washes owes room))
            r.moves;
      nothing = r.nothing;
      waits = r.waits;
      same_housekeepers = r.same_housekeepers;
      same_stockers = r.same_stockers;
      same_manager = r.same_manager;
      others =
          λ other apart. r.others other apart ∙ lookup-insert_other name other washes s.owed apart;
    }
