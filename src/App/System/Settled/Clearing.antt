-- ===== src/App/System/Settled/Clearing.antt =====
-- How every housekeeper of internal/app/housekeeper_service.go sends what it owes.
use kenshu_elaris_project_st.Base.{
  String, ◌≡◌, refl, ◌∙◌, sym, subst, ◌⊎◌, inl, inr, Bool-cases, Option, none, some, List, [], ◌∷◌,
  lookup, str_eq, str_eq_iff,
}
use kenshu_elaris_project_st.Domain.Documents.{WashRequest}
use kenshu_elaris_project_st.App.Employee.Run.Progress.{In}
use kenshu_elaris_project_st.App.System.{System, Moves, here, then_moves}
use kenshu_elaris_project_st.App.System.Settled.Sending.{Waits, OwesNothing, Sent, send_all}

-- Moves to where some housekeepers owe nothing.
pub record Cleared (launderer : String) (names : List String) (s : System) : Type 0 where
  pub end : System
  pub moves : Moves s end
  pub nothing : (name : String) → In name names → OwesNothing name end
  pub still_nothing : (name : String) → OwesNothing name s → OwesNothing name end
  pub waits : Waits launderer end
  pub same_housekeepers : end.housekeepers ≡ s.housekeepers
  pub same_stockers : end.stockers ≡ s.stockers
  pub same_manager : end.manager ≡ s.manager

-- Moves to where one more of them owes nothing.
record ClearedOne (launderer name : String) (s : System) : Type 0 where
  pub end : System
  pub moves : Moves s end
  pub nothing : OwesNothing name end
  pub still_nothing : (other : String) → OwesNothing other s → OwesNothing other end
  pub waits : Waits launderer end
  pub same_housekeepers : end.housekeepers ≡ s.housekeepers
  pub same_stockers : end.stockers ≡ s.stockers
  pub same_manager : end.manager ≡ s.manager

clear_one :
    (launderer name : String) (washes : Option (List WashRequest)) (s : System)
    → Waits launderer s
    → lookup name s.owed ≡ washes
    → ClearedOne launderer name s
clear_one launderer name none s waits owes = record {
  end = s;
  moves = here;
  nothing = inl owes;
  still_nothing = λ other h. h;
  waits = waits;
  same_housekeepers = refl;
  same_stockers = refl;
  same_manager = refl;
}
clear_one launderer name (some washes) s waits owes =
    let c : Sent launderer name s = send_all launderer name washes s waits owes in
    record {
      end = c.end;
      moves = c.moves;
      nothing = inr c.nothing;
      still_nothing = λ other h. elim (Bool-cases (str_eq name other)) [
        | inl same ↦
            subst (λ key. OwesNothing key c.end) ((str_eq_iff name other).0 same) (inr c.nothing)
        | inr apart ↦ subst (λ w. (w ≡ none) ⊎ (w ≡ some [])) (sym (c.others other apart)) h
      ];
      waits = c.waits;
      same_housekeepers = c.same_housekeepers;
      same_stockers = c.same_stockers;
      same_manager = c.same_manager;
    }

pub clear :
    (launderer : String) (names : List String) (s : System)
    → Waits launderer s
    → Cleared launderer names s
clear launderer [] s waits = record {
  end = s;
  moves = here;
  nothing = λ name in_names. cc in_names;
  still_nothing = λ name h. h;
  waits = waits;
  same_housekeepers = refl;
  same_stockers = refl;
  same_manager = refl;
}
clear launderer (first ∷ names) s waits =
    let c : ClearedOne launderer first s =
      clear_one launderer first (lookup first s.owed) s waits refl in
    let d : Cleared launderer names c.end = clear launderer names c.end c.waits in
    record {
      end = d.end;
      moves = then_moves c.moves d.moves;
      nothing = λ name in_names. elim in_names [
        | inl same ↦
            d.still_nothing name
              (subst (λ key. OwesNothing key c.end) ((str_eq_iff first name).0 same) c.nothing)
        | inr later ↦ d.nothing name later
      ];
      still_nothing = λ name h. d.still_nothing name (c.still_nothing name h);
      waits = d.waits;
      same_housekeepers = d.same_housekeepers ∙ c.same_housekeepers;
      same_stockers = d.same_stockers ∙ c.same_stockers;
      same_manager = d.same_manager ∙ c.same_manager;
    }
