-- ===== src/App/Employee/Run/Ended.antt =====
-- How the goroutines of one group of internal/app/employee_service.go end on the signal.
use kenshu_elaris_project_st.Base.{
  String, true, false, ◌≡◌, refl, ◌∙◌, sym, subst, ◌⊎◌, inl, inr, Bool-cases, Option, none, some,
  List, [], ◌∷◌, lookup, insert, str_eq, str_eq_iff,
}
use kenshu_elaris_project_st.App.Employee.Laws.{lookup-insert_same, lookup-insert_other}
use kenshu_elaris_project_st.App.Employee.Run.{
  Phase, selecting, handling, stopped, Pool, finishes, stops, finished, halted,
}
use kenshu_elaris_project_st.App.Employee.Run.Progress.{WorkerRun, at_work, works, then_work, In}

-- The named employee has ended, or is none of this group.
abbrev pub IsGone : {R : Type 0} → String → List (String × Phase R) → Type 0
IsGone name workers = (lookup name workers ≡ none) ⊎ (lookup name workers ≡ some stopped)

module _ {R : Type 0} where
  -- Who is gone stays so behind the end of an employee, whose place alone has changed before.
  pub stays-IsGone :
      (name other : String) (workers middle : List (String × Phase R))
      → (str_eq name other ≡ false → lookup other middle ≡ lookup other workers)
      → IsGone other workers
      → IsGone other (insert name stopped middle)
  stays-IsGone name other workers middle same_place gone = elim (Bool-cases (str_eq name other)) [
    | inl same ↦ inr (
        subst (λ key. lookup key (insert name stopped middle) ≡ some stopped)
          ((str_eq_iff name other).0 same) (lookup-insert_same name stopped middle))
    | inr apart ↦
        subst (λ (place : Option (Phase R)). (place ≡ none) ⊎ (place ≡ some stopped))
          (sym (lookup-insert_other name other stopped middle apart ∙ same_place apart)) gone
  ]

module _ {R : Type 0} (no_request : R) where
  -- A run of the employees to where those that are named are gone, which takes no request.
  pub record Ended (names : List String) (p : Pool R) : Type 0 where
    pub end : Pool R
    pub run : WorkerRun no_request p end
    pub gone : (name : String) → In name names → IsGone name end.workers
    pub still_gone : (name : String) → IsGone name p.workers → IsGone name end.workers
    pub same_requests : end.requests ≡ p.requests
    pub cancelled : end.cancelled ≡ true

  record OneEnded (name : String) (p : Pool R) : Type 0 where
    pub end : Pool R
    pub run : WorkerRun no_request p end
    pub gone : IsGone name end.workers
    pub still_gone : (other : String) → IsGone other p.workers → IsGone other end.workers
    pub same_requests : end.requests ≡ p.requests
    pub cancelled : end.cancelled ≡ true

  end_one :
      (p : Pool R) (name : String) (place : Option (Phase R))
      → lookup name p.workers ≡ place
      → p.cancelled ≡ true
      → OneEnded name p
  end_one p name none at cancelled = record {
    end = p;
    run = at_work;
    gone = inl at;
    still_gone = λ other gone. gone;
    same_requests = refl;
    cancelled = cancelled;
  }
  end_one p name (some stopped) at cancelled = record {
    end = p;
    run = at_work;
    gone = inr at;
    still_gone = λ other gone. gone;
    same_requests = refl;
    cancelled = cancelled;
  }
  end_one p name (some selecting) at cancelled = record {
    end = halted name p;
    run = works at_work (stops name at cancelled);
    gone = inr (lookup-insert_same name stopped p.workers);
    still_gone = λ other. stays-IsGone name other p.workers p.workers (λ apart. refl);
    same_requests = refl;
    cancelled = cancelled;
  }
  end_one p name (some (handling request)) at cancelled =
      let q : Pool R = finished no_request name p in
      record {
        end = halted name q;
        run =
            works (works at_work (finishes name request at))
              (stops name (lookup-insert_same name selecting p.workers) cancelled);
        gone = inr (lookup-insert_same name stopped q.workers);
        still_gone = λ other.
            stays-IsGone name other p.workers q.workers
              (lookup-insert_other name other selecting p.workers);
        same_requests = refl;
        cancelled = cancelled;
      }

  -- Once the context is cancelled there is a run of the employees alone, from any moment, to one at
  -- which all the employees that are named have ended, and those that had ended before stay so: the
  -- wait of `Work` for its goroutines can come to its end.
  pub Run-Ended : (names : List String) (p : Pool R) → p.cancelled ≡ true → Ended names p
  Run-Ended [] p cancelled = record {
    end = p;
    run = at_work;
    gone = λ name in_names. cc in_names;
    still_gone = λ name gone. gone;
    same_requests = refl;
    cancelled = cancelled;
  }
  Run-Ended (first ∷ names) p cancelled =
      let d : OneEnded first p = end_one p first (lookup first p.workers) refl cancelled in
      let e : Ended names d.end = Run-Ended names d.end d.cancelled in
      record {
        end = e.end;
        run = then_work no_request d.run e.run;
        gone = λ name in_names. elim in_names [
          | inl same ↦
              e.still_gone name
                (subst (λ key. IsGone key d.end.workers) ((str_eq_iff first name).0 same) d.gone)
          | inr later ↦ e.gone name later
        ];
        still_gone = λ name gone. e.still_gone name (d.still_gone name gone);
        same_requests = e.same_requests ∙ d.same_requests;
        cancelled = e.cancelled;
      }
