-- ===== src/Sample/Staff.antt =====
-- The services of a configuration with one employee of each kind.
use kenshu_elaris_project_st.Base.{String, [], ◌∷◌, refl, true, ◌≡◌}
use kenshu_elaris_project_st.Domain.Set.{new_set}
use kenshu_elaris_project_st.Validation.{validate, not_zero_value, positive_value}
use kenshu_elaris_project_st.App.Employee.{new_service}
use kenshu_elaris_project_st.App.Services.{
  present, new_services, made, Services, StockerService, TimeEventService, no_cleaning_request,
  no_wash_request, no_restock_request,
}
use kenshu_elaris_project_st.App.Services.Laws.{given}

-- What a port is does not matter to the constructors.
abbrev pub port : String
port = "port"

abbrev events : TimeEventService String
events = record {
  hour_change_client = present port;
  day_change_client = present port;
  subscribers = record { hour_change_channels = new_set; day_change_channels = new_set };
}

abbrev stocker_service : StockerService String
stocker_service = record {
  employee_service = new_service no_restock_request ("S" ∷ []);
  stock_repo = present port;
}

abbrev pub small : Services String String String String
small = record {
  housekeeper_service = record {
    employee_service = new_service no_cleaning_request ("H" ∷ []);
    clock = present port;
    cottage_repo = present port;
    stock_repo = present port;
    stoker = present stocker_service;
    launderer_request_chan = true;
  };
  launderer_service = record {
    employee_service = new_service no_wash_request ("L" ∷ []);
    clock = present port;
    hour_change = present events;
    stock_repo = present port;
    stocker = present stocker_service;
  };
  stocker_service = stocker_service;
  manager_service = record {
    cleaning_event_consumer = present port;
    time_event_registry = present events;
    cleaning_ch = true;
    stocker_ch = true;
  };
  time_event_notification_service = events;
}

pub one_of_each :
    new_services
      (given ("S" ∷ []) ("H" ∷ []) ("L" ∷ []))
      (present port)
      (present port)
      (present port)
      (present port)
      (present port)
      (present port)
    ≡ made small
unfolding new_services validate not_zero_value positive_value new_service
one_of_each = refl
