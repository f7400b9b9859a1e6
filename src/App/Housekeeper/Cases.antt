-- ===== src/App/Housekeeper/Cases.antt =====
-- The cases of the `switch` over the request's type.
use kenshu_elaris_project_st.Base.{◌≡◌, inl, inr, false, Bool-cases, str_eq, str_eq_iff}
use kenshu_elaris_project_st.Domain.Documents.{CleaningRequest}
use kenshu_elaris_project_st.App.World.{problem, write}
use kenshu_elaris_project_st.App.Housekeeper.{
  Housekeeper, prepare_for_guest, daily_cleaning, full_cleaning, prepare_for_sleep, tasks,
}

pub data Case {D : Type 0} (h : Housekeeper D) (request : CleaningRequest) : Type 0 where
  guest :
      request.request_type ≡ "PREPARE_FOR_GUEST"
      → tasks h request ≡ prepare_for_guest h request.room_name
      → Case h request
  daily :
      request.request_type ≡ "DAILY_CLEANING"
      → tasks h request ≡ daily_cleaning h request.room_name
      → Case h request
  full :
      request.request_type ≡ "FULL_CLEANING"
      → tasks h request ≡ full_cleaning h request.room_name
      → Case h request
  sleep :
      request.request_type ≡ "PREPARE_FOR_SLEEP"
      → tasks h request ≡ prepare_for_sleep h request.room_name
      → Case h request
  unknown :
      str_eq request.request_type "PREPARE_FOR_GUEST" ≡ false
      → str_eq request.request_type "DAILY_CLEANING" ≡ false
      → str_eq request.request_type "FULL_CLEANING" ≡ false
      → str_eq request.request_type "PREPARE_FOR_SLEEP" ≡ false
      → tasks h request ≡ write (problem "unknown cleaning request")
      → Case h request

pub tasks-Case : {D : Type 0} (h : Housekeeper D) (request : CleaningRequest) → Case h request
unfolding tasks
tasks-Case h request = elim (Bool-cases (str_eq request.request_type "PREPARE_FOR_GUEST")) [
  | inl e ↦ guest ((str_eq_iff _ _).0 e) (rw (e, tasks))
  | inr a ↦ elim (Bool-cases (str_eq request.request_type "DAILY_CLEANING")) [
    | inl e ↦ daily ((str_eq_iff _ _).0 e) (rw (a, e, tasks))
    | inr b ↦ elim (Bool-cases (str_eq request.request_type "FULL_CLEANING")) [
      | inl e ↦ full ((str_eq_iff _ _).0 e) (rw (a, b, e, tasks))
      | inr c ↦ elim (Bool-cases (str_eq request.request_type "PREPARE_FOR_SLEEP")) [
        | inl e ↦ sleep ((str_eq_iff _ _).0 e) (rw (a, b, c, e, tasks))
        | inr d ↦ unknown a b c d (rw (a, b, c, d, tasks))
      ]
    ]
  ]
]
