-- ===== src/Mdb/Bson.antt =====
-- The MongoDB driver as the repositories see it: the documents that they build, a collection with
-- the two operations that they call, and what the driver documents of those.
use kenshu_elaris_project_st.Base.{ℕ, ℤ, String, ◌≡◌, ◌⊎◌}
use kenshu_elaris_project_st.Domain.Errors.{Error, Result, ok, err}

-- `bson.M`, with the values that the repositories put in.
mutual
  pub data Bson : Type 0 where
    int : ℤ → Bson
    str : String → Bson
    doc : Document → Bson

  pub data Document : Type 0 where
    nil : Document
    field : String → Bson → Document → Document

-- The document of one field.
abbrev pub only : String → Bson → Document
only name v = field name v nil

-- `bson.M{path: bson.M{"$gte": n}}`.
abbrev pub at_least : String → ℤ → Document
at_least path n = only path (doc (only "$gte" (int n)))

-- `bson.M{"$inc": bson.M{path: n}}`.
abbrev pub increment : String → ℤ → Document
increment path n = only "$inc" (doc (only path (int n)))

-- What `FindOne` comes back with: `SingleResult.Err` is nil, `mongo.ErrNoDocuments`, or another.
pub data FindResult : Type 0 where
  found : Document → FindResult
  no_documents : FindResult
  find_failed : Error → FindResult

pub record UpdateResult : Type 0 where
  pub matched_count : ℕ
  pub modified_count : ℕ

-- A collection over the state of the server and the connection.
pub record Collection (D : Type 0) : Type 0 where
  pub find_one : Document → D → FindResult × D
  pub update_one : Document → Document → D → Result UpdateResult × D

-- What an update came back with and left, where it is to match the stored value `before` only if
-- `Fits`, and to store `after`. A call that fails may have taken effect or not.
abbrev pub Updated {ℓ κ} : {V : Type ℓ} → Type κ → V → V → Result UpdateResult → V → Type (ℓ ⊔ κ)
Updated Fits before after (ok r) now =
    (Fits × (r.matched_count ≡ 1) × (r.modified_count ≡ 1) × (now ≡ after))
    ⊎ ((¬ Fits) × (r.matched_count ≡ 0) × (now ≡ before))
Updated Fits before after (err e) now = (now ≡ before) ⊎ (Fits × (now ≡ after))
