-- ===== src/App/Employee/Tests.antt =====
-- Two launderers, one of whom takes a request.
use kenshu_elaris_project_st.Base.{pos, false, ◌≡◌, refl, some, [], ◌∷◌, lookup, incr, arith}
use kenshu_elaris_project_st.Domain.Documents.{WashRequest}
use kenshu_elaris_project_st.App.Employee.{
  new_service, set_employee_working_status, idle_employee_count, employee_metrics,
}
use kenshu_elaris_project_st.App.Employee.Laws.{size}
use kenshu_elaris_project_st.App.Employee.Metrics.{lookup-employee_metrics}
use kenshu_elaris_project_st.App.Employee.Run.{
  handling, selecting, Pool, Run, here, step, send, take,
}
use kenshu_elaris_project_st.App.Employee.Run.Invariant.{Consistent}
use kenshu_elaris_project_st.App.Employee.Run.Start.{work_started, Run-Consistent, Run-idle_count}

abbrev wash : WashRequest
wash = record { room_name = "A"; item = "towels" }

abbrev nothing : WashRequest
nothing = record { room_name = ""; item = "" }

abbrev launderers : Pool WashRequest
launderers = work_started (new_service nothing ("Ann" ∷ "Bob" ∷ "Ann" ∷ []))

abbrev asked : Pool WashRequest
asked = record launderers { requests = wash ∷ []; sent = wash ∷ [] }

abbrev at_work : Pool WashRequest
at_work = record asked {
  service = (set_employee_working_status "Bob" wash asked.service).1;
  workers = ("Ann", selecting) ∷ ("Bob", handling wash) ∷ [];
  requests = [];
  starts = ("Bob", wash) ∷ [];
}

working_day : Run nothing launderers at_work
unfolding new_service
working_day = step (step here (send launderers wash refl)) (take asked "Bob" wash [] refl refl)

Run-Consistent_example :
    Consistent nothing (size (new_service nothing ("Ann" ∷ "Bob" ∷ "Ann" ∷ [])).employees) at_work
Run-Consistent_example = Run-Consistent nothing ("Ann" ∷ "Bob" ∷ "Ann" ∷ []) working_day

Run-idle_count_example : idle_employee_count at_work.service ≡ pos 1
unfolding new_service
Run-idle_count_example =
    Run-idle_count nothing ("Ann" ∷ "Bob" ∷ "Ann" ∷ []) (omega arith) working_day

lookup-employee_metrics_example :
    lookup "Bob" (employee_metrics at_work.service)
    ≡ some (record { is_idle = false; current_request = wash; handled_requests = pos 1 })
unfolding new_service set_employee_working_status incr
lookup-employee_metrics_example = lookup-employee_metrics "Bob" at_work.service (refl, (refl, tt))
