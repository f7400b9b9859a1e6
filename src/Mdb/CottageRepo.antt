-- ===== src/Mdb/CottageRepo.antt =====
-- internal/infra/mdb/cottage_repo.go. The method is one update, so it is one step of the state.
pub mod Laws
use kenshu_elaris_project_st.Base.{String, ◌==◌, Option, none, some, if◌then◌else◌}
use kenshu_elaris_project_st.Domain.Errors.{
  Error, Result, ok, err, unexpected, cottage_does_not_exist, cottage_cleaning_status_not_updated,
}
use kenshu_elaris_project_st.Port.{CottageRepo}
use kenshu_elaris_project_st.Validation.{new, validate_error, not_blank, valid_cleaning_status}
use kenshu_elaris_project_st.Mdb.Bson.{Document, only, str, doc, Collection, UpdateResult}

-- `bson.M{"name": name}`.
abbrev pub named : String → Document
named name = only "name" (str name)

-- `bson.M{"$set": bson.M{"cleaning_status": status}}`.
abbrev pub set_status : String → Document
set_status status = only "$set" (doc (only "cleaning_status" (str status)))

status_updated : String → Result UpdateResult → Option Error
status_updated cottage_name (err e) = some (unexpected "failed to update cottage clean status" e)
status_updated cottage_name (ok r) =
    if r.matched_count == 0
    then some (cottage_does_not_exist cottage_name)
    else if r.modified_count == 0
    then some (cottage_cleaning_status_not_updated cottage_name)
    else none

module _ {D : Type 0} (c : Collection D) where
  -- The update behind the two validations.
  update_valid : String → String → D → Option Error × D
  unfolding status_updated
  update_valid cottage_name cleaning_status x =
      let (r, y) = c.update_one (named cottage_name) (set_status cleaning_status) x in
      (status_updated cottage_name r, y)

  unfoldable pub update_cleaning_status : String → String → D → Option Error × D
  unfolding update_valid
  update_cleaning_status cottage_name cleaning_status x =
      elim (validate_error
        (not_blank "cleaningStatus" cleaning_status (not_blank "cottageName" cottage_name new))) [
          | some e ↦ (some e, x)
          | none ↦
              elim (validate_error (valid_cleaning_status "cleaningStatus" cleaning_status new)) [
                | some e ↦ (some e, x)
                | none ↦ update_valid cottage_name cleaning_status x
              ]
        ]

  -- `NewCottageRepo`, as the port sees what it returns.
  abbrev pub cottage_repo : CottageRepo D
  cottage_repo = record { update_cleaning_status = update_cleaning_status }
