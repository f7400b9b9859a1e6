-- ===== src/App/Employee/Run/Invariant.antt =====
-- What holds of the employees and their channel at every moment of a run.
use kenshu_elaris_project_st.Base.{
  ℕ, ◌+◌, ℤ, pos, incr, String, Bool, true, false, ◌≡◌, refl, ◌∙◌, ap, subst, inl, inr, Bool-cases,
  Option, none, some, List, [], ◌∷◌, ◌++◌, append_assoc, lookup, insert, str_eq, str_eq_iff,
  if◌then◌else◌, arith,
}
use kenshu_elaris_project_st.App.Employee.{
  EmployeeStatus, working, idle, working_found, idle_found, store, set_employee_working_status,
  set_employee_idle_status,
}
use kenshu_elaris_project_st.App.Employee.Laws.{
  number, size, number-insert, size-insert, lookup-insert_other, lookup-insert_same,
}
use kenshu_elaris_project_st.App.Employee.Run.{
  Phase, selecting, handling, stopped, Pool, Step, send, close, cancel, take, finish,
  stop_cancelled, stop_closed, Run, here, step,
}

module _ {R : Type 0} where
  -- The requests in the order in which they were taken.
  abbrev pub in_order : List (String × R) → List R
  in_order [] = []
  in_order (start ∷ starts) = in_order starts ++ start.1 ∷ []

  -- How many requests an employee took, as an `int` counts them.
  abbrev pub tally : String → List (String × R) → ℤ
  tally name [] = pos 0
  tally name (start ∷ starts) =
      let rest = tally name starts in if str_eq start.0 name then incr rest else rest

  abbrev pub is_busy : Phase R → Bool
  is_busy (handling request) = true
  is_busy selecting = false
  is_busy stopped = false

  abbrev pub is_idle : EmployeeStatus R → Bool
  is_idle status = status.is_idle

module _ {R : Type 0} (no_request : R) where
  abbrev Resting : ℤ → EmployeeStatus R → Type 0
  Resting n status =
      (status.is_idle ≡ true)
      × (status.current_request ≡ no_request)
      × (status.handled_requests ≡ n)

  -- What the map says of an employee, where its goroutine is, and how many requests it took.
  abbrev pub Agrees : ℤ → Option (EmployeeStatus R) → Option (Phase R) → Type 0
  Agrees n none none = Unit
  Agrees n (some status) (some selecting) = Resting n status
  Agrees n (some status) (some (handling request)) =
      (status.is_idle ≡ false) × (status.current_request ≡ request) × (status.handled_requests ≡ n)
  Agrees n (some status) (some stopped) = Resting n status
  Agrees n none (some phase) = false ≡ true
  Agrees n (some status) none = false ≡ true

  abbrev pub AllAgree :
      List (String × R) → List (String × EmployeeStatus R) → List (String × Phase R) → Type 0
  AllAgree starts employees workers =
      (name : String) → Agrees (tally name starts) (lookup name employees) (lookup name workers)

  -- `n` is the number of the employees.
  pub record Consistent (n : ℕ) (p : Pool R) : Type 0 where
    pub agree : AllAgree p.starts p.service.employees p.workers
    pub counted : number is_idle p.service.employees + number is_busy p.workers ≡ n
    pub sized : size p.service.employees ≡ n
    pub ordered : p.sent ≡ in_order p.starts ++ p.requests

  agree-update :
      (key : String) (status : EmployeeStatus R) (phase : Phase R)
      (employees : List (String × EmployeeStatus R)) (workers : List (String × Phase R))
      (starts starts' : List (String × R))
      → AllAgree starts employees workers
      → Agrees (tally key starts') (some status) (some phase)
      → ((name : String) → str_eq key name ≡ false → tally name starts' ≡ tally name starts)
      → AllAgree starts' (insert key status employees) (insert key phase workers)
  agree-update key status phase employees workers starts starts' all new same name =
      elim (Bool-cases (str_eq key name)) [
        | inl eq ↦
            subst
              (λ m.
                Agrees (tally m starts') (lookup m (insert key status employees))
                  (lookup m (insert key phase workers)))
              ((str_eq_iff key name).0 eq)
              (rw (lookup-insert_same key status employees, lookup-insert_same key phase workers)
                new)
        | inr other ↦
            rw
              (
                lookup-insert_other key name status employees other,
                lookup-insert_other key name phase workers other,
                same name other,
              )
              (all name)
      ]

  agree-stop :
      (key : String) (employees : List (String × EmployeeStatus R))
      (workers : List (String × Phase R)) (starts : List (String × R))
      → lookup key workers ≡ some selecting
      → AllAgree starts employees workers
      → AllAgree starts employees (insert key stopped workers)
  agree-stop key employees workers starts is all name = elim (Bool-cases (str_eq key name)) [
    | inl eq ↦
        subst
          (λ m.
            Agrees (tally m starts) (lookup m employees) (lookup m (insert key stopped workers)))
          ((str_eq_iff key name).0 eq)
          (rw (lookup-insert_same key stopped workers) (
            rest (lookup key employees)
              (subst (Agrees (tally key starts) (lookup key employees)) is (all key))))
    | inr other ↦ rw (lookup-insert_other key name stopped workers other) (all name)
  ]
    where
      rest :
          (o : Option (EmployeeStatus R))
          → Agrees (tally key starts) o (some selecting)
          → Agrees (tally key starts) o (some stopped)
      rest none h = h
      rest (some status) h = h

  take-Consistent :
      {n : ℕ} (p : Pool R) (name : String) (request : R) (rest : List R)
      → lookup name p.workers ≡ some selecting
      → p.requests ≡ request ∷ rest
      → Consistent n p
      → (o : Option (EmployeeStatus R)) → lookup name p.service.employees ≡ o
      → Agrees (tally name p.starts) o (some selecting)
      → Consistent n (record p {
        service = (working_found name request o p.service).1;
        workers = insert name (handling request) p.workers;
        requests = rest;
        starts = (name, request) ∷ p.starts;
      })
  unfolding working_found store
  take-Consistent p name request rest was queue c none is h = cc h
  take-Consistent p name request rest was queue c (some status) is h = record {
    agree =
        agree-update name (working request status) (handling request) p.service.employees p.workers
          p.starts ((name, request) ∷ p.starts) c.agree
          (refl, refl, rw ((str_eq_iff name name).1 refl) (ap incr h.2)) (λ m other. rw other refl);
    counted = omega (
      arith,
      rw h.0 at (number-insert is_idle name status (working request status) p.service.employees is),
      number-insert is_busy name selecting (handling request) p.workers was,
      c.counted,
    );
    sized = size-insert name status (working request status) p.service.employees is ∙ c.sized;
    ordered = rw (append_assoc (in_order p.starts) (request ∷ []) rest) (rw queue at c.ordered);
  }

  finish-Consistent :
      {n : ℕ} (p : Pool R) (name : String) (request : R)
      → lookup name p.workers ≡ some (handling request)
      → Consistent n p
      → (o : Option (EmployeeStatus R)) → lookup name p.service.employees ≡ o
      → Agrees (tally name p.starts) o (some (handling request))
      → Consistent n (record p {
        service = idle_found no_request name o p.service;
        workers = insert name selecting p.workers;
      })
  unfolding idle_found store
  finish-Consistent p name request was c none is h = cc h
  finish-Consistent p name request was c (some status) is h = record {
    agree =
        agree-update name (idle no_request status) selecting p.service.employees p.workers p.starts
          p.starts c.agree (refl, refl, h.2) (λ m other. refl);
    counted = omega (
      arith,
      rw h.0 at (number-insert is_idle name status (idle no_request status) p.service.employees is),
      number-insert is_busy name (handling request) selecting p.workers was,
      c.counted,
    );
    sized = size-insert name status (idle no_request status) p.service.employees is ∙ c.sized;
    ordered = c.ordered;
  }

  stop-Consistent :
      {n : ℕ} (p : Pool R) (name : String)
      → lookup name p.workers ≡ some selecting
      → Consistent n p
      → Consistent n (record p { workers = insert name stopped p.workers })
  stop-Consistent p name was c = record {
    agree = agree-stop name p.service.employees p.workers p.starts was c.agree;
    counted = omega (arith, number-insert is_busy name selecting stopped p.workers was, c.counted);
    sized = c.sized;
    ordered = c.ordered;
  }

  Step-Consistent : {n : ℕ} {p q : Pool R} → Step no_request p q → Consistent n p → Consistent n q
  unfolding set_employee_working_status set_employee_idle_status
  Step-Consistent (send p request accepts) c = record {
    agree = c.agree;
    counted = c.counted;
    sized = c.sized;
    ordered = rw c.ordered (append_assoc (in_order p.starts) p.requests (request ∷ []));
  }
  Step-Consistent (close p) c = record {
    agree = c.agree;
    counted = c.counted;
    sized = c.sized;
    ordered = c.ordered;
  }
  Step-Consistent (cancel p) c = record {
    agree = c.agree;
    counted = c.counted;
    sized = c.sized;
    ordered = c.ordered;
  }
  Step-Consistent (take p name request rest was queue) c =
      take-Consistent p name request rest was queue c (lookup name p.service.employees) refl
        (subst (Agrees (tally name p.starts) (lookup name p.service.employees)) was (c.agree name))
  Step-Consistent (finish p name request was) c =
      finish-Consistent p name request was c (lookup name p.service.employees) refl
        (subst (Agrees (tally name p.starts) (lookup name p.service.employees)) was (c.agree name))
  Step-Consistent (stop_cancelled p name was done) c = stop-Consistent p name was c
  Step-Consistent (stop_closed p name was done empty) c = stop-Consistent p name was c

  pub Runs-Consistent :
      {n : ℕ} {p q : Pool R} → Run no_request p q → Consistent n p → Consistent n q
  Runs-Consistent here c = c
  Runs-Consistent (step run last) c = Step-Consistent last (Runs-Consistent run c)
