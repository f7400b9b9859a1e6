-- ===== src/Mdb/CottageRepo/Laws.antt =====
-- `UpdateCleaningStatus` keeps its promise.
use kenshu_elaris_project_st.Base.{
  String, ◌≡◌, refl, ◌⊎◌, inl, inr, true, false, Bool-cases, Option, none, some, all_space,
  trim_space, trim_space-eq-nil, str_eq_iff, arith,
}
use kenshu_elaris_project_st.Domain.Errors.{Error, Result, ok, err, validation_constrain}
use kenshu_elaris_project_st.Validation.{new, validate_error, not_blank, valid_cleaning_status}
use kenshu_elaris_project_st.Port.CottageContract.{known_status, Updated, CottageContract}
use kenshu_elaris_project_st.Mdb.Bson.{Collection, UpdateResult}
use kenshu_elaris_project_st.Mdb.CottageView.{CottageView, Sets}
use kenshu_elaris_project_st.Mdb.CottageRepo.{
  named, set_status, status_updated, update_valid, update_cleaning_status, cottage_repo,
}

abbrev blank_checks : String → String → Option Error
blank_checks name status =
    validate_error (not_blank "cleaningStatus" status (not_blank "cottageName" name new))

abbrev status_check : String → Option Error
status_check status = validate_error (valid_cleaning_status "cleaningStatus" status new)

abbrev Blank : String → String → Option Error → Type 0
Blank name status none = Unit {0}
Blank name status (some (validation_constrain field message)) =
    (all_space name ≡ true) ⊎ (all_space status ≡ true)
Blank name status (some _) = ⊥

blank_checks-Blank : (name status : String) → Blank name status (blank_checks name status)
unfolding validate_error not_blank
blank_checks-Blank name status = ground (
  arith,
  trim_space-eq-nil name,
  str_eq_iff (trim_space name) "",
  trim_space-eq-nil status,
  str_eq_iff (trim_space status) "",
)

abbrev Known : String → Option Error → Type 0
Known status none = known_status status ≡ true
Known status (some (validation_constrain field message)) = known_status status ≡ false
Known status (some _) = ⊥

status_check-Known : (status : String) → Known status (status_check status)
unfolding validate_error valid_cleaning_status
status_check-Known status = elim (Bool-cases (known_status status)) [
  | inl e ↦ rw (e, Known) e
  | inr e ↦ rw (e, Known) e
]

module _ {D : Type 0} {c : Collection D} (w : CottageView c) where
  open w use {status, update_sets}

  status_updated-Updated :
      (name new_status : String) (before after : String → Option String) (r : Result UpdateResult)
      → known_status new_status ≡ true
      → Sets name new_status before r after
      → Updated name new_status before (status_updated name r) after
  unfolding status_updated
  status_updated-Updated name s before after (err e) known h = (known, h)
  status_updated-Updated name s before after (ok r) known (inl (absent, matched, same)) =
      simp matched (refl, absent, same)
  status_updated-Updated name s before after (ok r) known
        (inr (inl (has, matched, modified, same))) =
      simp (matched, modified) (refl, has, same)
  status_updated-Updated name s before after (ok r) known
        (inr (inr (other, matched, modified, set))) =
      simp (matched, modified) (known, other, set)

  Known-Updated :
      (name new_status : String) (x : D) (r : Option Error)
      → blank_checks name new_status ≡ none
      → status_check new_status ≡ r
      → Known new_status r
      → let (e, y) = update_cleaning_status c name new_status x in
        Updated name new_status (status x) e (status y)
  unfolding update_cleaning_status update_valid
  Known-Updated name new_status x none blank is known =
      rw (blank, update_cleaning_status, is)
        (status_updated-Updated name new_status (status x)
          (status (c.update_one (named name) (set_status new_status) x).1)
          (c.update_one (named name) (set_status new_status) x).0 known
          (update_sets name new_status x))
  Known-Updated name new_status x (some (validation_constrain f m)) blank is known =
      rw (blank, update_cleaning_status, is) (inr (inr known), λ m'. refl)
  Known-Updated name new_status x (some _) blank is known = absurd known

  checked-Updated :
      (name new_status : String) (x : D) (r : Option Error)
      → blank_checks name new_status ≡ r
      → Blank name new_status r
      → let (e, y) = update_cleaning_status c name new_status x in
        Updated name new_status (status x) e (status y)
  unfolding update_cleaning_status
  checked-Updated name new_status x none is why =
      Known-Updated name new_status x (status_check new_status) is refl
        (status_check-Known new_status)
  checked-Updated name new_status x (some (validation_constrain f m)) is (inl h) =
      rw (is, update_cleaning_status) (inl h, λ m'. refl)
  checked-Updated name new_status x (some (validation_constrain f m)) is (inr h) =
      rw (is, update_cleaning_status) (inr (inl h), λ m'. refl)
  checked-Updated name new_status x (some _) is why = absurd why

  -- Over a collection of cottages that follows the manual of MongoDB, `UpdateCleaningStatus` answers
  -- nil only if it gave one of the four known statuses to a cottage that had another one; "does not
  -- exist" only if no cottage has the name; "not updated" only if the cottage already had the
  -- status; a validation error only for a blank argument or an unknown status; these leave every
  -- cottage alone. An unexpected error leaves every cottage alone or gave the status. No other error
  -- comes out, and no other cottage changes.
  pub update_cleaning_status-Updated :
      (name new_status : String) (x : D)
      → let (e, y) = update_cleaning_status c name new_status x in
        Updated name new_status (status x) e (status y)
  update_cleaning_status-Updated name new_status x =
      checked-Updated name new_status x (blank_checks name new_status) refl
        (blank_checks-Blank name new_status)

  -- The repository over such a collection fills the contract of the port.
  abbrev pub cottage_repo-contract : CottageContract (cottage_repo c)
  cottage_repo-contract = record { status = status; update_lem = update_cleaning_status-Updated }
