-- ===== src/App/Services/Laws.antt =====
-- What `NewServices` makes of its configuration.
use kenshu_elaris_project_st.Base.{
  ℕ, suc, pos, leb_ℤ, String, false, ◌≡◌, ◌≢◌, refl, ◌⊎◌, inl, inr, arith, List, [], ◌∷◌,
}
use kenshu_elaris_project_st.Domain.Errors.{validation_constrain}
use kenshu_elaris_project_st.Config.{Employees}
use kenshu_elaris_project_st.Validation.{validate, not_zero_value, positive_value}
use kenshu_elaris_project_st.App.Employee.{new_service, length}
use kenshu_elaris_project_st.App.Services.{
  Dependency, missing, present, Made, made, refused, panic, Services, new_services,
  new_launderer_service, no_cleaning_request, no_wash_request, no_restock_request,
}

module _ {C K S Q : Type 0} (employees : Employees) where
  pub data Outcome : Made (Services C K S Q) → Type 0 where
    nobody :
        (employees.stockers ≡ []) ⊎ (employees.housekeepers ≡ []) ⊎ (employees.launderers ≡ [])
        → Outcome (refused (validation_constrain "employeeCount" "must be greater than 0"))
    complete :
        (s : Services C K S Q)
        → employees.stockers ≢ []
        → employees.housekeepers ≢ []
        → employees.launderers ≢ []
        → s.stocker_service.employee_service ≡ new_service no_restock_request employees.stockers
        → s.housekeeper_service.employee_service
          ≡ new_service no_cleaning_request employees.housekeepers
        → s.launderer_service.employee_service ≡ new_service no_wash_request employees.launderers
        → s.housekeeper_service.stoker ≡ present s.stocker_service
        → s.launderer_service.stocker ≡ present s.stocker_service
        → s.launderer_service.hour_change ≡ present s.time_event_notification_service
        → s.manager_service.time_event_registry ≡ present s.time_event_notification_service
        → Outcome (made s)

abbrev pub given : (stockers housekeepers launderers : List String) → Employees
given stockers housekeepers launderers = record {
  housekeepers = housekeepers;
  launderers = launderers;
  stockers = stockers;
}

counted : (n : ℕ) → leb_ℤ (pos (suc n)) (pos 0) ≡ false
counted n = ground arith

pub new_services-Outcome :
    {C K S Q : Type 0} (stockers housekeepers launderers : List String) (cottage_repo : K)
    (stock_repo : S) (hours days cleanings : Q) (clock : C)
    → Outcome (given stockers housekeepers launderers) (
        new_services
          (given stockers housekeepers launderers)
          (present cottage_repo)
          (present stock_repo)
          (present hours)
          (present days)
          (present cleanings)
          (present clock))
unfolding new_services validate not_zero_value positive_value new_service
new_services-Outcome [] housekeepers launderers k s hours days cleanings c = nobody (inl refl)
new_services-Outcome (x ∷ xs) [] launderers k s hours days cleanings c =
    rw (counted (length xs)) (nobody (inr (inl refl)))
new_services-Outcome (x ∷ xs) (y ∷ ys) [] k s hours days cleanings c =
    rw (counted (length xs), counted (length ys)) (nobody (inr (inr refl)))
new_services-Outcome (x ∷ xs) (y ∷ ys) (z ∷ zs) k s hours days cleanings c =
    rw (counted (length xs), counted (length ys), counted (length zs))
      (complete _ (λ e. cc e) (λ e. cc e) (λ e. cc e) refl refl refl refl refl refl refl)

-- The constructor of the launderers panics, in place of answering an error, whenever the clock is no
-- value at all, whatever else it is given.
pub new_launderer_service-missing :
    {C H S I : Type 0} (names : List String) (hour_change : Dependency H)
    (stock_repo : Dependency S) (stocker : Dependency I)
    → new_launderer_service {C = C} names missing hour_change stock_repo stocker ≡ panic
unfolding new_launderer_service validate not_zero_value positive_value
new_launderer_service-missing names hour_change stock_repo stocker = refl
