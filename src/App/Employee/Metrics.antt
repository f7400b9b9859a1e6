-- ===== src/App/Employee/Metrics.antt =====
-- What `EmployeeMetrics` answers.
use kenshu_elaris_project_st.Base.{
  String, ◌≡◌, refl, ◌∙◌, subst, Bool-cases, inl, inr, Option, none, some, List, [], ◌∷◌, lookup,
  insert, str_eq, str_eq_iff,
}
use kenshu_elaris_project_st.App.Employee.{
  EmployeeStatus, EmployeeService, EmployeeMetrics, collect, employee_metrics,
}
use kenshu_elaris_project_st.App.Employee.Laws.{Distinct, lookup-insert_same, lookup-insert_other}

module _ {R : Type 0} where
  abbrev pub metrics_of : EmployeeStatus R → EmployeeMetrics R
  metrics_of status = record {
    is_idle = status.is_idle;
    current_request = status.current_request;
    handled_requests = status.handled_requests;
  }

  -- The metrics of a status that was found, or else what was there.
  abbrev pub or_metrics :
      Option (EmployeeMetrics R) → Option (EmployeeStatus R) → Option (EmployeeMetrics R)
  or_metrics before none = before
  or_metrics before (some status) = some (metrics_of status)

  lookup-collect :
      (name : String) (metrics : List (String × EmployeeMetrics R))
      (employees : List (String × EmployeeStatus R))
      → Distinct employees
      → lookup name (collect metrics employees)
        ≡ or_metrics (lookup name metrics) (lookup name employees)
  unfolding collect
  lookup-collect name metrics [] h = refl
  lookup-collect name metrics (entry ∷ employees) h =
      lookup-collect name (insert entry.0 (metrics_of entry.1) metrics) employees h.1 ∙ found
    where
      found :
          or_metrics
            (lookup name (insert entry.0 (metrics_of entry.1) metrics))
            (lookup name employees)
          ≡ or_metrics (lookup name metrics) (lookup name (entry ∷ employees))
      found = elim (Bool-cases (str_eq entry.0 name)) [
        | inl same ↦
            rw
              (
                same,
                subst (λ n. lookup n employees ≡ none) ((str_eq_iff entry.0 name).0 same) h.0,
                (str_eq_iff entry.0 name).0 same,
                lookup-insert_same name (metrics_of entry.1) metrics,
              )
              refl
        | inr other ↦
            rw (other, lookup-insert_other entry.0 name (metrics_of entry.1) metrics other) refl
      ]

  -- If no name stands twice in the map of employees, as in every Go map, the map of metrics has under
  -- each name what the map of employees has under it, and no other name.
  pub lookup-employee_metrics :
      (name : String) (s : EmployeeService R)
      → Distinct s.employees
      → lookup name (employee_metrics s) ≡ or_metrics none (lookup name s.employees)
  unfolding employee_metrics
  lookup-employee_metrics name s h = lookup-collect name [] s.employees h
