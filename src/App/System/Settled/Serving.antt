-- ===== src/App/System/Settled/Serving.antt =====
-- How one housekeeper of internal/app/housekeeper_service.go does all works that are asked for.
use kenshu_elaris_project_st.Base.{
  String, true, ◌≡◌, ◌≢◌, refl, ◌∙◌, ap, Option, none, some, List, [], ◌∷◌, ◌++◌, lookup, insert,
}
use kenshu_elaris_project_st.Domain.Documents.{CleaningRequest, WashRequest}
use kenshu_elaris_project_st.App.Employee.Laws.{lookup-insert_same}
use kenshu_elaris_project_st.App.Employee.Run.{
  Phase, selecting, handling, stopped, Pool, taken, finished,
}
use kenshu_elaris_project_st.App.Services.{no_cleaning_request}
use kenshu_elaris_project_st.App.System.{
  System, housekeeper_takes, housekeeper_finishes, Moves, here, step, then_moves, orders_of,
}
use kenshu_elaris_project_st.App.System.Laundry.{OwesAtWork}
use kenshu_elaris_project_st.App.System.Settled.Sending.{Waits, Sent, send_all}

-- Moves to where every cleaning request was taken, by a housekeeper who then owes nothing.
pub record Served (launderer keeper : String) (s : System) : Type 0 where
  pub end : System
  pub moves : Moves s end
  pub empty : end.housekeepers.requests ≡ []
  pub same_sent : end.housekeepers.sent ≡ s.housekeepers.sent
  pub waits : Waits launderer end
  pub ready : lookup keeper end.housekeepers.workers ≡ some selecting
  pub same_stockers : end.stockers ≡ s.stockers
  pub same_manager : end.manager ≡ s.manager

-- The rest of a work: to send what is owed, and to finish.
finish_work :
    (launderer keeper : String) (s : System) (request : CleaningRequest) (washes : List WashRequest)
    → Waits launderer s
    → lookup keeper s.housekeepers.workers ≡ some (handling request)
    → lookup keeper s.owed ≡ some washes
    → ((t : System)
        → Waits launderer t
        → lookup keeper t.housekeepers.workers ≡ some selecting
        → t.housekeepers.requests ≡ s.housekeepers.requests
        → Served launderer keeper t)
    → Served launderer keeper s
finish_work launderer keeper s request washes waits at owes rest =
    let c : Sent launderer keeper s = send_all launderer keeper washes s waits owes in
    let t : System = record c.end {
      housekeepers = finished no_cleaning_request keeper c.end.housekeepers;
    } in
    let same : c.end.housekeepers ≡ s.housekeepers = c.same_housekeepers in
    let r : Served launderer keeper t =
      rest t c.waits (lookup-insert_same keeper selecting c.end.housekeepers.workers)
        (ap (λ (p : Pool CleaningRequest). p.requests) same) in
    record {
      end = r.end;
      moves =
          then_moves
            (step c.moves (
              housekeeper_finishes c.end keeper request
                (ap (λ (p : Pool CleaningRequest). lookup keeper p.workers) same ∙ at) c.nothing))
            r.moves;
      empty = r.empty;
      same_sent = r.same_sent ∙ ap (λ (p : Pool CleaningRequest). p.sent) same;
      waits = r.waits;
      ready = r.ready;
      same_stockers = r.same_stockers ∙ c.same_stockers;
      same_manager = r.same_manager ∙ c.same_manager;
    }

serve :
    (launderer keeper : String) (requests : List CleaningRequest) (s : System)
    → Waits launderer s
    → lookup keeper s.housekeepers.workers ≡ some selecting
    → s.housekeepers.requests ≡ requests
    → Served launderer keeper s
serve launderer keeper [] s waits at is = record {
  end = s;
  moves = here;
  empty = is;
  same_sent = refl;
  waits = waits;
  ready = at;
  same_stockers = refl;
  same_manager = refl;
}
serve launderer keeper (request ∷ requests) s waits at is =
    let orders : List WashRequest = orders_of true request in
    let t : System = record s {
      housekeepers = taken keeper request requests s.housekeepers;
      owed = insert keeper orders s.owed;
      ordered = s.ordered ++ orders;
    } in
    let r : Served launderer keeper t =
      finish_work launderer keeper t request orders waits
        (lookup-insert_same keeper (handling request) s.housekeepers.workers)
        (lookup-insert_same keeper orders s.owed)
        (λ u waits' at' is'. serve launderer keeper requests u waits' at' is') in
    record {
      end = r.end;
      moves =
          then_moves (step here (housekeeper_takes s keeper request requests true at is)) r.moves;
      empty = r.empty;
      same_sent = r.same_sent;
      waits = r.waits;
      ready = r.ready;
      same_stockers = r.same_stockers;
      same_manager = r.same_manager;
    }

pub serve_from :
    (launderer keeper : String) (phase : Phase CleaningRequest) (washes : Option (List WashRequest))
    (s : System)
    → Waits launderer s
    → lookup keeper s.housekeepers.workers ≡ some phase
    → phase ≢ stopped
    → lookup keeper s.owed ≡ washes
    → OwesAtWork (some phase) washes
    → Served launderer keeper s
serve_from launderer keeper selecting washes s waits at running owes h =
    serve launderer keeper s.housekeepers.requests s waits at refl
serve_from launderer keeper stopped washes s waits at running owes h = absurd (running refl)
serve_from launderer keeper (handling request) none s waits at running owes h = cc h
serve_from launderer keeper (handling request) (some washes) s waits at running owes h =
    finish_work launderer keeper s request washes waits at owes
      (λ t waits' at' is. serve launderer keeper t.housekeepers.requests t waits' at' refl)
