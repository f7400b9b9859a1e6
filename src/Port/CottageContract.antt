-- ===== src/Port/CottageContract.antt =====
-- The contract of `port.CottageRepo`: what its method promises, over the cleaning status of each
-- cottage by its name.
use kenshu_elaris_project_st.Base.{
  String, ◌≡◌, ◌≢◌, ◌⊎◌, true, false, Bool, ◌||◌, Option, none, some, all_space, str_eq,
  if◌then◌else◌,
}
use kenshu_elaris_project_st.Domain.Errors.{
  Error, unexpected, cottage_does_not_exist, cottage_cleaning_status_not_updated,
  validation_constrain,
}
use kenshu_elaris_project_st.Domain.Documents.{
  status_prepared_for_guest, status_daily_cleaned, status_prepared_for_sleep, status_fully_cleaned,
}
use kenshu_elaris_project_st.Port.{CottageRepo}

-- One of the four statuses of domain/documents.
abbrev pub known_status : String → Bool
known_status status =
    str_eq status status_prepared_for_guest
    || str_eq status status_daily_cleaned
    || str_eq status status_prepared_for_sleep
    || str_eq status status_fully_cleaned

-- The cottage had some status, and now every cottage has what it had, but this one `status`.
abbrev pub StatusSet :
    String → String → (String → Option String) → (String → Option String) → Type 0
StatusSet name status before after =
    (old : String) × (before name ≡ some old)
    × ((n : String) → after n ≡ (if str_eq name n then some status else before n))

abbrev pub Updated :
    String → String → (String → Option String) → Option Error → (String → Option String) → Type 0
Updated name status before none after =
    (known_status status ≡ true) × (before name ≢ some status) × StatusSet name status before after
Updated name status before (some (cottage_does_not_exist n)) after =
    (n ≡ name) × (before name ≡ none) × ((m : String) → after m ≡ before m)
Updated name status before (some (cottage_cleaning_status_not_updated n)) after =
    (n ≡ name) × (before name ≡ some status) × ((m : String) → after m ≡ before m)
Updated name status before (some (validation_constrain field message)) after =
    ((all_space name ≡ true) ⊎ (all_space status ≡ true) ⊎ (known_status status ≡ false))
    × ((m : String) → after m ≡ before m)
Updated name status before (some (unexpected message e)) after =
    (known_status status ≡ true)
    × (((m : String) → after m ≡ before m) ⊎ StatusSet name status before after)
Updated name status before (some _) after = ⊥

pub record CottageContract {D : Type 0} (r : CottageRepo D) : Type 0 where
  pub status : D → String → Option String
  pub update_lem :
      (name new_status : String) (x : D)
      → let (e, y) = r.update_cleaning_status name new_status x in
        Updated name new_status (status x) e (status y)
