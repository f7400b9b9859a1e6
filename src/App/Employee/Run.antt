-- ===== src/App/Employee/Run.antt =====
-- `Work` of employee_service.go as a step relation: the goroutines of the employees share the channel
-- of requests, and any of them may move next.
pub mod Invariant
pub mod Start
pub mod Progress
pub mod Ended
use kenshu_elaris_project_st.Base.{
  ℕ, ◌+◌, ◌<◌, suc, ℤ, pos, incr, int_limit, String, Bool, true, false, ◌≡◌, refl, ◌∙◌, sym, ◌⊎◌,
  inl, inr, Bool-cases, Option, none, some, List, [], ◌∷◌, ◌++◌, append_assoc, lookup, insert,
  str_eq, if◌then◌else◌, arith,
}
use kenshu_elaris_project_st.App.Employee.{
  EmployeeStatus, EmployeeService, working, idle, set_employee_working_status,
  set_employee_idle_status, idle_employee_count,
}
use kenshu_elaris_project_st.App.Employee.Laws.{
  number, size, number-insert, lookup-insert_other, lookup-insert_same,
}

-- Where a goroutine is: at the `select`, inside `s.work`, or past its end.
pub data Phase (R : Type 0) : Type 0 where
  selecting : Phase R
  handling : (request : R) → Phase R
  stopped : Phase R

-- `sent` is what was ever put into the channel, oldest first, and `starts` who took which request out
-- of it, newest first; both only record.
pub record Pool (R : Type 0) : Type 0 where
  pub service : EmployeeService R
  pub workers : List (String × Phase R)
  pub requests : List R
  pub closed : Bool
  pub cancelled : Bool
  pub sent : List R
  pub starts : List (String × R)

module _ {R : Type 0} where
  -- The state behind a send, and behind the end of a goroutine.
  abbrev pub sent_to : R → Pool R → Pool R
  sent_to request p = record p {
    requests = p.requests ++ request ∷ [];
    sent = p.sent ++ request ∷ [];
  }

  abbrev pub halted : String → Pool R → Pool R
  halted name p = record p { workers = insert name stopped p.workers }

  -- The state behind the start of the work on a request, and behind its end.
  abbrev pub taken : String → R → List R → Pool R → Pool R
  taken name request rest p = record p {
    service = (set_employee_working_status name request p.service).1;
    workers = insert name (handling request) p.workers;
    requests = rest;
    starts = (name, request) ∷ p.starts;
  }

abbrev pub finished : {R : Type 0} → R → String → Pool R → Pool R
finished no_request name p = record p {
  service = set_employee_idle_status no_request name p.service;
  workers = insert name selecting p.workers;
}

module _ {R : Type 0} (no_request : R) where
  pub data Step : Pool R → Pool R → Type 0 where
    send :
        (p : Pool R) (request : R)
        → p.closed ≡ false
        → Step p (record p { requests = p.requests ++ request ∷ []; sent = p.sent ++ request ∷ [] })
    close : (p : Pool R) → Step p (record p { closed = true })
    cancel : (p : Pool R) → Step p (record p { cancelled = true })
    take :
        (p : Pool R) (name : String) (request : R) (rest : List R)
        → lookup name p.workers ≡ some selecting
        → p.requests ≡ request ∷ rest
        → Step p (record p {
          service = (set_employee_working_status name request p.service).1;
          workers = insert name (handling request) p.workers;
          requests = rest;
          starts = (name, request) ∷ p.starts;
        })
    finish :
        (p : Pool R) (name : String) (request : R)
        → lookup name p.workers ≡ some (handling request)
        → Step p (record p {
          service = set_employee_idle_status no_request name p.service;
          workers = insert name selecting p.workers;
        })
    stop_cancelled :
        (p : Pool R) (name : String)
        → lookup name p.workers ≡ some selecting
        → p.cancelled ≡ true
        → Step p (record p { workers = insert name stopped p.workers })
    stop_closed :
        (p : Pool R) (name : String)
        → lookup name p.workers ≡ some selecting
        → p.closed ≡ true
        → p.requests ≡ []
        → Step p (record p { workers = insert name stopped p.workers })

  -- The steps of the employees themselves, of which none sends, closes the channel or cancels.
  pub data Worker (p : Pool R) : Pool R → Type 0 where
    takes :
        (name : String) (request : R) (rest : List R)
        → lookup name p.workers ≡ some selecting
        → p.requests ≡ request ∷ rest
        → Worker p (taken name request rest p)
    finishes :
        (name : String) (request : R)
        → lookup name p.workers ≡ some (handling request)
        → Worker p (finished no_request name p)
    stops :
        (name : String)
        → lookup name p.workers ≡ some selecting
        → p.cancelled ≡ true
        → Worker p (halted name p)

  pub Worker-Step : {p q : Pool R} → Worker p q → Step p q
  Worker-Step {p} (takes name request rest at is) = take p name request rest at is
  Worker-Step {p} (finishes name request at) = finish p name request at
  Worker-Step {p} (stops name at cancelled) = stop_cancelled p name at cancelled

  pub data Run (p : Pool R) : Pool R → Type 0 where
    here : Run p p
    step : {q r : Pool R} → Run p q → Step q r → Run p r
