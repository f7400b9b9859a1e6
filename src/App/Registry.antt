-- ===== src/App/Registry.antt =====
-- The interface `timeEventRegistry` of internal/app/time_event_notification_service.go. A channel of
-- instants is the number that tells it from others; a nil channel is `none`.
use kenshu_elaris_project_st.Base.{ℕ, String, Option}

abbrev pub time_event_hour_change : String
time_event_hour_change = "hour_change"

abbrev pub time_event_day_change : String
time_event_day_change = "day_change"

pub record TimeEventRegistry (D : Type 0) : Type 0 where
  pub register : (event_type : String) (ch : Option ℕ) → D → D
  pub unregister : (event_type : String) (ch : Option ℕ) → D → D
