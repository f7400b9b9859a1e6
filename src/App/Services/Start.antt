-- ===== src/App/Services/Start.antt =====
-- `Services.Start` of internal/app/init.go: the employees whose goroutines it starts. It also starts
-- the loops of the manager and of the time events, which are `start` of App/Manager and of
-- App/TimeEvents, over the events that they receive.
use kenshu_elaris_project_st.Base.{String, ◌≡◌, subst, List}
use kenshu_elaris_project_st.Domain.Documents.{CleaningRequest, WashRequest, RestockRequest}
use kenshu_elaris_project_st.App.Employee.{EmployeeService, new_service}
use kenshu_elaris_project_st.App.Employee.Laws.{size}
use kenshu_elaris_project_st.App.Employee.Run.{Pool, Run}
use kenshu_elaris_project_st.App.Employee.Run.Invariant.{Consistent}
use kenshu_elaris_project_st.App.Employee.Run.Start.{work_started, Run-Consistent}
use kenshu_elaris_project_st.App.Services.{
  Made, made, refused, panic, present, Services, new_services, no_cleaning_request, no_wash_request,
  no_restock_request,
}
use kenshu_elaris_project_st.App.Services.Laws.{
  Outcome, nobody, complete, given, new_services-Outcome,
}

pub record Started : Type 0 where
  pub housekeepers : Pool CleaningRequest
  pub launderers : Pool WashRequest
  pub stockers : Pool RestockRequest

abbrev pub start : {C K S Q : Type 0} → Services C K S Q → Started
start s = record {
  housekeepers = work_started s.housekeeper_service.employee_service;
  launderers = work_started s.launderer_service.employee_service;
  stockers = work_started s.stocker_service.employee_service;
}

-- The employees of the services are those of the configuration.
abbrev Hired :
    {C K S Q : Type 0}
    → (stockers housekeepers launderers : List String) → Made (Services C K S Q)
    → Type 0
Hired stockers housekeepers launderers (made s) =
    (s.housekeeper_service.employee_service ≡ new_service no_cleaning_request housekeepers)
    × (s.launderer_service.employee_service ≡ new_service no_wash_request launderers)
    × (s.stocker_service.employee_service ≡ new_service no_restock_request stockers)
Hired stockers housekeepers launderers (refused e) = Unit
Hired stockers housekeepers launderers panic = Unit

Outcome-Hired :
    {C K S Q : Type 0} {stockers housekeepers launderers : List String}
    {m : Made (Services C K S Q)}
    → Outcome (given stockers housekeepers launderers) m
    → Hired stockers housekeepers launderers m
Outcome-Hired (nobody reason) = tt
Outcome-Hired (complete s c1 c2 c3 of_stockers of_housekeepers of_launderers s1 s2 s3 s4) =
    (of_housekeepers, of_launderers, of_stockers)

-- The state of a group of employees that started from a service which is that of a list of names.
started_run :
    {R : Type 0} (no_request : R) (names : List String) {service : EmployeeService R} {p : Pool R}
    → service ≡ new_service no_request names
    → Run no_request (work_started service) p
    → Consistent no_request (size (new_service no_request names).employees) p
started_run no_request names {p = p} is run =
    Run-Consistent no_request names
      (subst (λ service. Run no_request (work_started service) p) is run)

-- If `NewServices` makes the services of a configuration, then from their start and at any later
-- moments of the three groups of employees, each group is consistent: its map tells of every employee
-- of the configuration's list whether it works and on what and how many requests it took, the idle and
-- the working ones together are all of them, and requests are taken in the order in which they were
-- sent, each once.
pub start-Consistent :
    {C K S Q : Type 0} (stockers housekeepers launderers : List String) (cottage_repo : K)
    (stock_repo : S) (hours days cleanings : Q) (clock : C) (s : Services C K S Q)
    → new_services
        (given stockers housekeepers launderers)
        (present cottage_repo)
        (present stock_repo)
        (present hours)
        (present days)
        (present cleanings)
        (present clock)
      ≡ made s
    → {p : Pool CleaningRequest} {q : Pool WashRequest} {r : Pool RestockRequest}
    → Run no_cleaning_request (start s).housekeepers p
    → Run no_wash_request (start s).launderers q
    → Run no_restock_request (start s).stockers r
    → Consistent no_cleaning_request
        (size (new_service no_cleaning_request housekeepers).employees)
        p
      × Consistent no_wash_request (size (new_service no_wash_request launderers).employees) q
      × Consistent no_restock_request (size (new_service no_restock_request stockers).employees) r
start-Consistent stockers housekeepers launderers k st hours days cleanings clock s is cleaned
      washed restocked =
    let (h1, h2, h3) = subst (Hired stockers housekeepers launderers) is (
      Outcome-Hired
        (new_services-Outcome stockers housekeepers launderers k st hours days cleanings clock)) in
    (
      started_run no_cleaning_request housekeepers h1 cleaned,
      started_run no_wash_request launderers h2 washed,
      started_run no_restock_request stockers h3 restocked,
    )
