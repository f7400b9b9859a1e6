-- ===== src/App/Employee.antt =====
-- internal/app/employee_service.go and employee_metrics_service.go. `R` is the type of the requests
-- and `no_request` its zero value. Every method holds the mutex from start to end, so a method is a
-- function of the map.
pub mod Laws
pub mod Metrics
pub mod Run
mod Tests
use kenshu_elaris_project_st.Base.{
  ℕ, suc, ℤ, pos, incr, String, Bool, true, false, Option, none, some, List, [], ◌∷◌, lookup,
  insert, map, if◌then◌else◌,
}

pub record EmployeeStatus (R : Type 0) : Type 0 where
  pub is_idle : Bool
  pub current_request : R
  pub handled_requests : ℤ

pub record EmployeeService (R : Type 0) : Type 0 where
  pub employee_count : ℤ
  pub employees : List (String × EmployeeStatus R)

pub record EmployeeMetrics (R : Type 0) : Type 0 where
  pub is_idle : Bool
  pub current_request : R
  pub handled_requests : ℤ

pub length : List String → ℕ
length [] = 0
length (name ∷ names) = suc (length names)

module _ {R : Type 0} where
  -- The status behind the assignments of `setEmployeeWorkingStatus`.
  abbrev pub working : R → EmployeeStatus R → EmployeeStatus R
  working request status = record status {
    is_idle = false;
    handled_requests = incr status.handled_requests;
    current_request = request;
  }

  abbrev pub idle : R → EmployeeStatus R → EmployeeStatus R
  idle empty_request status = record status { is_idle = true; current_request = empty_request }

  pub store : String → EmployeeStatus R → EmployeeService R → EmployeeService R
  store employee_name status s = record s { employees = insert employee_name status s.employees }

  pub working_found :
      String → R → Option (EmployeeStatus R) → EmployeeService R → ℤ × EmployeeService R
  unfolding store
  working_found employee_name request none s = (pos 0, s)
  working_found employee_name request (some status) s =
      (incr status.handled_requests, store employee_name (working request status) s)

  unfoldable pub set_employee_working_status :
      String → R → EmployeeService R → ℤ × EmployeeService R
  unfolding working_found
  set_employee_working_status employee_name request s =
      working_found employee_name request (lookup employee_name s.employees) s

  pub idle_found : R → String → Option (EmployeeStatus R) → EmployeeService R → EmployeeService R
  unfolding store
  idle_found no_request employee_name none s = s
  idle_found no_request employee_name (some status) s =
      store employee_name (idle no_request status) s

  unfoldable pub set_employee_idle_status : R → String → EmployeeService R → EmployeeService R
  unfolding idle_found
  set_employee_idle_status no_request employee_name s =
      idle_found no_request employee_name (lookup employee_name s.employees) s

  -- The loop of `IdleEmployeeCount`, from a count on.
  pub count_idle : ℤ → List (String × EmployeeStatus R) → ℤ
  count_idle idle_employees [] = idle_employees
  count_idle idle_employees (entry ∷ employees) =
      count_idle (if entry.1.is_idle then incr idle_employees else idle_employees) employees

  unfoldable pub idle_employee_count : EmployeeService R → ℤ
  unfolding count_idle
  idle_employee_count s = count_idle (pos 0) s.employees

  -- The loop of `EmployeeMetrics`, from the map made so far on.
  pub collect :
      List (String × EmployeeMetrics R)
      → List (String × EmployeeStatus R)
      → List (String × EmployeeMetrics R)
  collect metrics [] = metrics
  collect metrics (entry ∷ employees) =
      collect
        (insert entry.0
          (record {
            is_idle = entry.1.is_idle;
            current_request = entry.1.current_request;
            handled_requests = entry.1.handled_requests;
          })
          metrics)
        employees

  unfoldable pub employee_metrics : EmployeeService R → List (String × EmployeeMetrics R)
  unfolding collect
  employee_metrics s = collect [] s.employees

  -- The map that the constructors of the services fill: a name that comes again is written again.
  unfoldable pub new_employees :
      R → List String → List (String × EmployeeStatus R) → List (String × EmployeeStatus R)
  new_employees no_request [] employees = employees
  new_employees no_request (worker_name ∷ names) employees = new_employees no_request names (
      insert worker_name
        (record { is_idle = true; current_request = no_request; handled_requests = pos 0 })
        employees)

  -- The `employeeService` that each constructor of a service makes.
  unfoldable pub new_service : R → List String → EmployeeService R
  unfolding length new_employees
  new_service no_request employee_names = record {
    employee_count = pos (length employee_names);
    employees = new_employees no_request employee_names [];
  }
