-- ===== src/Mdb/CottageView.antt =====
-- What the cottage repository relies on: `status` reads the status of the first cottage of a name,
-- and an update of one cottage acts as the MongoDB manual says of `$set`. A field that already has
-- the value is matched and not modified.
use kenshu_elaris_project_st.Base.{String, ◌≡◌, ◌≢◌, ◌⊎◌, Option, none, some}
use kenshu_elaris_project_st.Domain.Errors.{Result, ok, err}
use kenshu_elaris_project_st.Port.CottageContract.{StatusSet}
use kenshu_elaris_project_st.Mdb.Bson.{Collection, UpdateResult}
use kenshu_elaris_project_st.Mdb.CottageRepo.{named, set_status}

-- What an update of the status came back with and left. One that fails may have taken effect.
abbrev pub Sets :
    String
    → String
    → (String → Option String)
    → Result UpdateResult
    → (String → Option String)
    → Type 0
Sets name status before (ok r) after =
    ((before name ≡ none) × (r.matched_count ≡ 0) × ((m : String) → after m ≡ before m))
    ⊎ ((before name ≡ some status)
        × (r.matched_count ≡ 1)
        × (r.modified_count ≡ 0)
        × ((m : String) → after m ≡ before m))
    ⊎ ((before name ≢ some status)
        × (r.matched_count ≡ 1)
        × (r.modified_count ≡ 1)
        × StatusSet name status before after)
Sets name status before (err e) after =
    ((m : String) → after m ≡ before m) ⊎ StatusSet name status before after

pub record CottageView {D : Type 0} (c : Collection D) : Type 0 where
  pub status : D → String → Option String
  pub update_sets :
      (name new_status : String) (x : D)
      → let (r, y) = c.update_one (named name) (set_status new_status) x in
        Sets name new_status (status x) r (status y)
