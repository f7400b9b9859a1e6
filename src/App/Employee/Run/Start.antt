-- ===== src/App/Employee/Run/Start.antt =====
-- The employees that a constructor makes, at the moment their goroutines start and from then on.
use kenshu_elaris_project_st.Base.{
  ◌-◌, ◌<◌, suc, pos, int_limit, String, true, false, ◌≡◌, refl, ◌∙◌, ap, Bool-cases, inl, inr,
  List, [], ◌∷◌, insert, str_eq, arith,
}
use kenshu_elaris_project_st.App.Employee.{
  EmployeeStatus, EmployeeService, new_employees, new_service, idle_employee_count,
}
use kenshu_elaris_project_st.App.Employee.Laws.{number, size, idle_count-number}
use kenshu_elaris_project_st.App.Employee.Run.{Phase, selecting, Pool, Run}
use kenshu_elaris_project_st.App.Employee.Run.Invariant.{
  AllAgree, Consistent, is_busy, is_idle, Runs-Consistent,
}

module _ {R : Type 0} where
  -- One goroutine for each entry of the map.
  abbrev pub started : List (String × EmployeeStatus R) → List (String × Phase R)
  started [] = []
  started (entry ∷ employees) = (entry.0, selecting) ∷ started employees

  -- The start of `Work`, in front of an open and empty channel.
  abbrev pub work_started : EmployeeService R → Pool R
  work_started s = record {
    service = s;
    workers = started s.employees;
    requests = [];
    closed = false;
    cancelled = false;
    sent = [];
    starts = [];
  }

  started-busy :
      (employees : List (String × EmployeeStatus R)) → number is_busy (started employees) ≡ 0
  started-busy [] = refl
  started-busy (entry ∷ employees) = started-busy employees

module _ {R : Type 0} (no_request : R) where
  abbrev fresh : EmployeeStatus R
  fresh = record { is_idle = true; current_request = no_request; handled_requests = pos 0 }

  abbrev AllFresh : List (String × EmployeeStatus R) → Type 0
  AllFresh [] = Unit
  AllFresh (entry ∷ employees) = (entry.1 ≡ fresh) × AllFresh employees

  insert-AllFresh :
      (name : String) (employees : List (String × EmployeeStatus R))
      → AllFresh employees
      → AllFresh (insert name fresh employees)
  insert-AllFresh name [] h = (refl, tt)
  insert-AllFresh name (entry ∷ employees) h = elim (Bool-cases (str_eq entry.0 name)) [
    | inl same ↦ rw same (refl, h.1)
    | inr other ↦ rw other (h.0, insert-AllFresh name employees h.1)
  ]

  new_employees-AllFresh :
      (names : List String) (employees : List (String × EmployeeStatus R))
      → AllFresh employees
      → AllFresh (new_employees no_request names employees)
  unfolding new_employees
  new_employees-AllFresh [] employees h = h
  new_employees-AllFresh (name ∷ names) employees h =
      new_employees-AllFresh names (insert name fresh employees) (insert-AllFresh name employees h)

  fresh-number :
      (employees : List (String × EmployeeStatus R))
      → AllFresh employees
      → number is_idle employees ≡ size employees
  fresh-number [] h = refl
  fresh-number (entry ∷ employees) h = rw h.0 (ap suc (fresh-number employees h.1))

  fresh-agree :
      (employees : List (String × EmployeeStatus R))
      → AllFresh employees
      → AllAgree no_request [] employees (started employees)
  fresh-agree [] h name = tt
  fresh-agree (entry ∷ employees) h name = elim (Bool-cases (str_eq entry.0 name)) [
    | inl same ↦ rw (same, h.0) (refl, refl, refl)
    | inr other ↦ rw other (fresh-agree employees h.1 name)
  ]

  started-Consistent :
      (s : EmployeeService R)
      → AllFresh s.employees
      → Consistent no_request (size s.employees) (work_started s)
  started-Consistent s h = record {
    agree = fresh-agree s.employees h;
    counted = omega (arith, fresh-number s.employees h, started-busy s.employees);
    sized = refl;
    ordered = refl;
  }

  -- From the start of the employees that a constructor made, and at every moment after: the map tells
  -- of every employee whether it works and on what, and how many requests it took; the idle and the
  -- working ones together are all employees; and the requests were taken in the order in which they
  -- were sent, each once, those that are left being in the channel.
  pub Run-Consistent :
      (names : List String) {p : Pool R}
      → Run no_request (work_started (new_service no_request names)) p
      → Consistent no_request (size (new_service no_request names).employees) p
  unfolding new_service
  Run-Consistent names run =
      Runs-Consistent no_request run
        (started-Consistent (new_service no_request names) (new_employees-AllFresh names [] tt))

  -- With fewer than 2 ^ 63 employees, at every moment `IdleEmployeeCount` answers the number of
  -- all employees less those that are inside `work`.
  pub Run-idle_count :
      (names : List String) {p : Pool R}
      → size (new_service no_request names).employees < int_limit
      → Run no_request (work_started (new_service no_request names)) p
      → idle_employee_count p.service
        ≡ pos (size (new_service no_request names).employees - number is_busy p.workers)
  Run-idle_count names {p} small run =
      let c = Run-Consistent names run in
      idle_count-number p.service (omega (arith, small, c.sized))
      ∙ ap pos (omega (arith, c.counted))
