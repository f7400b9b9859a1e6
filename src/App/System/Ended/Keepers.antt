-- ===== src/App/System/Ended/Keepers.antt =====
-- How the housekeepers of internal/app/housekeeper_service.go end on the signal, when they owe nothing.
use kenshu_elaris_project_st.Base.{
  String, true, ◌≡◌, refl, ◌∙◌, subst, inl, inr, Option, none, some, List, [], ◌∷◌, lookup,
  str_eq_iff,
}
use kenshu_elaris_project_st.App.Employee.Laws.{lookup-insert_same, lookup-insert_other}
use kenshu_elaris_project_st.App.Employee.Run.{
  Phase, selecting, handling, stopped, Pool, finished, halted,
}
use kenshu_elaris_project_st.App.Employee.Run.Progress.{In}
use kenshu_elaris_project_st.Domain.Documents.{CleaningRequest}
use kenshu_elaris_project_st.App.Services.{no_cleaning_request}
use kenshu_elaris_project_st.App.System.{
  System, housekeeper_finishes, housekeeper_stops, Moves, here, step, then_moves,
}
use kenshu_elaris_project_st.App.System.Laundry.{Conserved, OwesAtWork, Moves-keep}
use kenshu_elaris_project_st.App.System.Settled.Sending.{OwesNothing}
use kenshu_elaris_project_st.App.Employee.Run.Ended.{IsGone, stays-IsGone}

-- The rest of the hotel is as it was.
pub record Alike (s t : System) : Type 0 where
  pub manager : t.manager ≡ s.manager
  pub launderers : t.launderers ≡ s.launderers
  pub stockers : t.stockers ≡ s.stockers
  pub owed : t.owed ≡ s.owed
  pub requests : t.housekeepers.requests ≡ s.housekeepers.requests
  pub cancelled : t.housekeepers.cancelled ≡ s.housekeepers.cancelled

alike :
    (s : System) (housekeepers : Pool CleaningRequest)
    → housekeepers.requests ≡ s.housekeepers.requests
    → housekeepers.cancelled ≡ s.housekeepers.cancelled
    → Alike s (record s { housekeepers = housekeepers })
alike s housekeepers requests cancelled = record {
  manager = refl;
  launderers = refl;
  stockers = refl;
  owed = refl;
  requests = requests;
  cancelled = cancelled;
}

-- Moves to where the named housekeepers are gone.
pub record KeepersEnded (names : List String) (s : System) : Type 0 where
  pub end : System
  pub moves : Moves s end
  pub gone : (name : String) → In name names → IsGone name end.housekeepers.workers
  pub still_gone :
      (name : String) → IsGone name s.housekeepers.workers → IsGone name end.housekeepers.workers
  pub same : Alike s end

record KeeperEnded (name : String) (s : System) : Type 0 where
  pub end : System
  pub moves : Moves s end
  pub gone : IsGone name end.housekeepers.workers
  pub still_gone :
      (other : String) → IsGone other s.housekeepers.workers → IsGone other end.housekeepers.workers
  pub same : Alike s end

nothing_left :
    (name : String) (s : System) (request : CleaningRequest)
    → OwesAtWork (some (handling request)) (lookup name s.owed)
    → OwesNothing name s
    → lookup name s.owed ≡ some []
nothing_left name s request owes (inl none_there) = cc (rw none_there at owes)
nothing_left name s request owes (inr nothing) = nothing

end_keeper :
    (s : System) (name : String) (place : Option (Phase CleaningRequest))
    → lookup name s.housekeepers.workers ≡ place
    → OwesAtWork place (lookup name s.owed)
    → OwesNothing name s
    → s.housekeepers.cancelled ≡ true
    → KeeperEnded name s
end_keeper s name none at owes nothing cancelled = record {
  end = s;
  moves = here;
  gone = inl at;
  still_gone = λ other gone. gone;
  same = alike s _ refl refl;
}
end_keeper s name (some stopped) at owes nothing cancelled = record {
  end = s;
  moves = here;
  gone = inr at;
  still_gone = λ other gone. gone;
  same = alike s _ refl refl;
}
end_keeper s name (some selecting) at owes nothing cancelled =
    let workers : List (String × Phase CleaningRequest) = s.housekeepers.workers in
    record {
      end = record s { housekeepers = halted name s.housekeepers };
      moves = step here (housekeeper_stops s name at cancelled);
      gone = inr (lookup-insert_same name stopped workers);
      still_gone = λ other. stays-IsGone name other workers workers (λ apart. refl);
      same = alike s _ refl refl;
    }
end_keeper s name (some (handling request)) at owes nothing cancelled =
    let workers : List (String × Phase CleaningRequest) = s.housekeepers.workers in
    let t : System = record s { housekeepers = finished no_cleaning_request name s.housekeepers } in
    record {
      end = record t { housekeepers = halted name t.housekeepers };
      moves =
          step
            (step here
              (housekeeper_finishes s name request at (nothing_left name s request owes nothing)))
            (housekeeper_stops t name (lookup-insert_same name selecting workers) cancelled);
      gone = inr (lookup-insert_same name stopped t.housekeepers.workers);
      still_gone = λ other.
          stays-IsGone name other workers t.housekeepers.workers
            (lookup-insert_other name other selecting workers);
      same = alike s _ refl refl;
    }

pub end_keepers :
    (names : List String) (s : System)
    → Conserved s
    → ((name : String) → In name names → OwesNothing name s)
    → s.housekeepers.cancelled ≡ true
    → KeepersEnded names s
end_keepers [] s c nothing cancelled = record {
  end = s;
  moves = here;
  gone = λ name in_names. cc in_names;
  still_gone = λ name gone. gone;
  same = alike s _ refl refl;
}
end_keepers (first ∷ names) s c nothing cancelled =
    let d : KeeperEnded first s =
      end_keeper s first (lookup first s.housekeepers.workers) refl (c.at_work first)
        (nothing first (inl ((str_eq_iff first first).1 refl))) cancelled in
    let e : KeepersEnded names d.end =
      end_keepers names d.end (Moves-keep d.moves c)
        (λ name in_names. rw d.same.owed (nothing name (inr in_names)))
        (d.same.cancelled ∙ cancelled) in
    record {
      end = e.end;
      moves = then_moves d.moves e.moves;
      gone = λ name in_names. elim in_names [
        | inl same ↦ e.still_gone name (
            subst (λ key. IsGone key d.end.housekeepers.workers) ((str_eq_iff first name).0 same)
              d.gone)
        | inr later ↦ e.gone name later
      ];
      still_gone = λ name gone. e.still_gone name (d.still_gone name gone);
      same = record {
        manager = e.same.manager ∙ d.same.manager;
        launderers = e.same.launderers ∙ d.same.launderers;
        stockers = e.same.stockers ∙ d.same.stockers;
        owed = e.same.owed ∙ d.same.owed;
        requests = e.same.requests ∙ d.same.requests;
        cancelled = e.same.cancelled ∙ d.same.cancelled;
      };
    }
