-- ===== src/App/Services.antt =====
-- The constructors of the services of internal/app, and `NewServices` of init.go. A constructor stores
-- what it is given without a look into it, so those types are parameters.
pub mod Laws
pub mod Start
mod Tests
use kenshu_elaris_project_st.Base.{ℤ, String, Bool, true, false, Option, none, some, List, [], ◌∷◌}
use kenshu_elaris_project_st.Domain.Errors.{Error}
use kenshu_elaris_project_st.Domain.Documents.{CleaningRequest, WashRequest, RestockRequest}
use kenshu_elaris_project_st.Domain.Set.{new_set}
use kenshu_elaris_project_st.Config.{Employees}
use kenshu_elaris_project_st.Validation.{
  AnyValue, nil_interface, value, Verdict, passed, failed, panicked, Validator, new, validate,
  not_zero_value, positive_value,
}
use kenshu_elaris_project_st.App.Employee.{EmployeeService, new_service}
use kenshu_elaris_project_st.App.TimeEvents.{TimeEventNotificationService}

-- A value of an interface type: none, a nil pointer, or something to call.
pub data Dependency (A : Type 0) : Type 0 where
  missing : Dependency A
  nil_pointer : Dependency A
  present : A → Dependency A

abbrev pub any : {A : Type 0} → Dependency A → AnyValue
any missing = nil_interface
any nil_pointer = value true
any (present x) = value false

-- A channel, which may be nil.
abbrev pub any_channel : (made : Bool) → AnyValue
any_channel true = value false
any_channel false = value true

-- How a constructor ends.
pub data Made (A : Type 0) : Type 0 where
  made : A → Made A
  refused : Error → Made A
  panic : Made A

abbrev pub made_after : {A : Type 0} → Verdict → A → Made A
made_after passed x = made x
made_after (failed e) x = refused e
made_after panicked x = panic

abbrev pub and_then : {A B : Type 0} → Made A → (A → Made B) → Made B
and_then (made x) f = f x
and_then (refused e) f = refused e
and_then panic f = panic

abbrev pub no_cleaning_request : CleaningRequest
no_cleaning_request = record { room_name = ""; request_type = "" }

abbrev pub no_wash_request : WashRequest
no_wash_request = record { room_name = ""; item = "" }

abbrev pub no_restock_request : RestockRequest
no_restock_request = record { items_name = [] }

pub record HousekeeperService (C K S I : Type 0) : Type 0 where
  pub employee_service : EmployeeService CleaningRequest
  pub clock : Dependency C
  pub cottage_repo : Dependency K
  pub stock_repo : Dependency S
  pub stoker : Dependency I
  pub launderer_request_chan : Bool

pub record LaundererService (C H S I : Type 0) : Type 0 where
  pub employee_service : EmployeeService WashRequest
  pub clock : Dependency C
  pub hour_change : Dependency H
  pub stock_repo : Dependency S
  pub stocker : Dependency I

pub record StockerService (S : Type 0) : Type 0 where
  pub employee_service : EmployeeService RestockRequest
  pub stock_repo : Dependency S

pub record ManagerService (Q H : Type 0) : Type 0 where
  pub cleaning_event_consumer : Dependency Q
  pub time_event_registry : Dependency H
  pub cleaning_ch : Bool
  pub stocker_ch : Bool

pub record TimeEventService (Q : Type 0) : Type 0 where
  pub hour_change_client : Dependency Q
  pub day_change_client : Dependency Q
  pub subscribers : TimeEventNotificationService

unfoldable pub new_stocker_service :
    {S : Type 0} → List String → Dependency S → Made (StockerService S)
new_stocker_service employee_names stock_repo =
    let service = new_service no_restock_request employee_names in
    made_after
      (validate (
        positive_value "employeeCount" service.employee_count
          (not_zero_value "stockRepo" (any stock_repo) new)))
      (record { employee_service = service; stock_repo = stock_repo })

unfoldable pub new_housekeeper_service :
    {C K S I : Type 0}
    → List String
    → Dependency C
    → Dependency K
    → Dependency S
    → Dependency I
    → Bool
    → Made (HousekeeperService C K S I)
new_housekeeper_service employee_names clock cottage_repo stock_repo stocker launder_request_ch =
    let service = new_service no_cleaning_request employee_names in
    made_after
      (validate (
        positive_value "employeeCount" service.employee_count (
          not_zero_value "stockRepo" (any stock_repo)
            (not_zero_value "cottageRepo" (any cottage_repo) new))))
      (record {
        employee_service = service;
        clock = clock;
        cottage_repo = cottage_repo;
        stock_repo = stock_repo;
        stoker = stocker;
        launderer_request_chan = launder_request_ch;
      })

unfoldable pub new_launderer_service :
    {C H S I : Type 0}
    → List String
    → Dependency C
    → Dependency H
    → Dependency S
    → Dependency I
    → Made (LaundererService C H S I)
new_launderer_service employee_names clock hour_change stock_repo stocker =
    let service = new_service no_wash_request employee_names in
    made_after
      (validate (
        positive_value "employeeCount" service.employee_count (
          not_zero_value "stockRepo" (any stock_repo) (
            not_zero_value "hourChange" (any hour_change)
              (not_zero_value "clock" (any clock) new)))))
      (record {
        employee_service = service;
        clock = clock;
        hour_change = hour_change;
        stock_repo = stock_repo;
        stocker = stocker;
      })

unfoldable pub new_manager_service :
    {Q H : Type 0} → Dependency Q → Dependency H → Bool → Bool → Made (ManagerService Q H)
new_manager_service cleaning_event_consumer time_event_registry cleaning_ch stocker_ch =
    made_after
      (validate (
        not_zero_value "cleaningCh" (any_channel cleaning_ch) (
          not_zero_value "timeEventRegistry" (any time_event_registry)
            (not_zero_value "cleaningEventConsumer" (any cleaning_event_consumer) new))))
      (record {
        cleaning_event_consumer = cleaning_event_consumer;
        time_event_registry = time_event_registry;
        cleaning_ch = cleaning_ch;
        stocker_ch = stocker_ch;
      })

unfoldable pub new_time_event_notification_service :
    {Q : Type 0} → Dependency Q → Dependency Q → Made (TimeEventService Q)
new_time_event_notification_service hour_change_client day_change_client =
    made_after
      (validate (
        not_zero_value "dayChangeClient" (any day_change_client)
          (not_zero_value "hourChangeClient" (any hour_change_client) new)))
      (record {
        hour_change_client = hour_change_client;
        day_change_client = day_change_client;
        subscribers = record { hour_change_channels = new_set; day_change_channels = new_set };
      })

pub record Services (C K S Q : Type 0) : Type 0 where
  pub housekeeper_service : HousekeeperService C K S (StockerService S)
  pub launderer_service : LaundererService C (TimeEventService Q) S (StockerService S)
  pub stocker_service : StockerService S
  pub manager_service : ManagerService Q (TimeEventService Q)
  pub time_event_notification_service : TimeEventService Q

-- The channels of `channels` are made when the program starts.
unfoldable pub new_services :
    {C K S Q : Type 0}
    → Employees
    → (cottage_repo : Dependency K) (stock_repo : Dependency S)
    → (hour_change_consumer day_change_consumer cleaning_consumer : Dependency Q)
    → (clock : Dependency C) → Made (Services C K S Q)
unfolding new_stocker_service new_housekeeper_service new_launderer_service new_manager_service
    new_time_event_notification_service
new_services employees cottage_repo stock_repo hour_change_consumer day_change_consumer
      cleaning_consumer clock =
    and_then (new_time_event_notification_service hour_change_consumer day_change_consumer)
      λ events. and_then (new_stocker_service employees.stockers stock_repo) λ stocker.
        and_then
          (new_housekeeper_service employees.housekeepers clock cottage_repo stock_repo
            (present stocker) true)
          λ housekeeper.
            and_then
              (new_launderer_service employees.launderers clock (present events) stock_repo
                (present stocker))
              λ launderer.
                and_then (new_manager_service cleaning_consumer (present events) true true)
                  λ manager. made (record {
                    housekeeper_service = housekeeper;
                    launderer_service = launderer;
                    stocker_service = stocker;
                    manager_service = manager;
                    time_event_notification_service = events;
                  })
