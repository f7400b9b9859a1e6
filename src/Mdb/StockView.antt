-- ===== src/Mdb/StockView.antt =====
-- What the stock repository relies on: the collection holds at most one document, which `stock`
-- reads, and an update acts on it as the MongoDB manual says of `$gte` and `$inc`.
use kenshu_elaris_project_st.Base.{ℤ, pos, ◌≤ℤ◌, ◌≡◌, ◌≢◌, String, Option, none, some}
use kenshu_elaris_project_st.Domain.Errors.{Result, ok}
use kenshu_elaris_project_st.Domain.Documents.{Stock, quantity_at, add_at}
use kenshu_elaris_project_st.Mdb.Bson.{
  Document, nil, at_least, increment, FindResult, found, no_documents, find_failed, Collection,
  Updated,
}

-- What `FindOne(bson.M{})` says of the document.
abbrev pub Finds : (Document → Result Stock) → Option Stock → FindResult → Type 0
Finds decode s (found d) = (x : Stock) × (decode d ≡ ok x) × (s ≡ some x)
Finds decode s no_documents = s ≡ none
Finds decode s (find_failed e) = Unit

pub record StockView {D : Type 0} (c : Collection D) (decode : Document → Result Stock)
    : Type 0 where
  pub stock : D → Option Stock
  pub find_reads : (x : D) → stock (c.find_one nil x).1 ≡ stock x
  pub find_finds : (x : D) → Finds decode (stock x) (c.find_one nil x).0
  pub update_absent :
      (filter update : Document) (x : D)
      → stock x ≡ none
      → Updated ⊥ none none
          (c.update_one filter update x).0
          (stock (c.update_one filter update x).1)
  pub update_at_least :
      (path : String) (n d : ℤ) (x : D) (s : Stock) (v : ℤ)
      → stock x ≡ some s
      → quantity_at path s ≡ some v
      → d ≢ pos 0
      → let (r, y) = c.update_one (at_least path n) (increment path d) x in
        Updated (n ≤ℤ v) (some s) (some (add_at path d s)) r (stock y)
  pub update_any :
      (path : String) (d : ℤ) (x : D) (s : Stock) (v : ℤ)
      → stock x ≡ some s
      → quantity_at path s ≡ some v
      → d ≢ pos 0
      → let (r, y) = c.update_one nil (increment path d) x in
        Updated (Unit {0}) (some s) (some (add_at path d s)) r (stock y)
