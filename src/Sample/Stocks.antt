-- ===== src/Sample/Stocks.antt =====
-- The stock collection of the sample database.
use kenshu_elaris_project_st.Base.{
  ℤ, pos, ◌≤ℤ◌, leb_ℤ, String, ◌≡◌, refl, sym, subst, inl, inr, Bool, true, false, Bool-cases,
  Option, none, some, str_eq, if◌then◌else◌, arith,
}
use kenshu_elaris_project_st.Domain.Errors.{Result, ok}
use kenshu_elaris_project_st.Domain.Documents.{Stock, StockItem, quantity_at, add_at}
use kenshu_elaris_project_st.Mdb.Bson.{
  Bson, int, str, doc, Document, nil, field, FindResult, found, no_documents, UpdateResult,
  Collection, at_least, increment, Updated,
}
use kenshu_elaris_project_st.Mdb.StockView.{StockView, Finds}
use kenshu_elaris_project_st.Sample.{Database}

abbrev pub item_doc : StockItem → Bson
item_doc i = doc (field "name" (str i.name) (field "quantity" (int i.quantity) nil))

abbrev pub encode : Stock → Document
encode s = field "cleaning_items" (item_doc s.cleaning_items) (
    field "soap" (item_doc s.soap) (
      field "bathroom_amenities" (item_doc s.bathroom_amenities) (
        field "aroma_candles" (item_doc s.aroma_candles) (
          field "water_bottle" (item_doc s.water_bottle) (
            field "wine_bottle" (item_doc s.wine_bottle) (
              field "tea_bags" (item_doc s.tea_bags)
                (field "sweets" (item_doc s.sweets) (field "chips" (item_doc s.chips) nil))))))))

abbrev pub value_of : String → Document → Bson
value_of name nil = doc nil
value_of name (field n v d) = if str_eq n name then v else value_of name d

abbrev pub text_of : Bson → String
text_of (str t) = t
text_of _ = ""

abbrev pub number_of : Bson → ℤ
number_of (int n) = n
number_of _ = pos 0

abbrev pub item_of : Bson → StockItem
item_of (doc d) = record {
  name = text_of (value_of "name" d);
  quantity = number_of (value_of "quantity" d);
}
item_of _ = record { name = ""; quantity = pos 0 }

abbrev pub decode : Document → Result Stock
decode d = ok (record {
  cleaning_items = item_of (value_of "cleaning_items" d);
  soap = item_of (value_of "soap" d);
  bathroom_amenities = item_of (value_of "bathroom_amenities" d);
  aroma_candles = item_of (value_of "aroma_candles" d);
  water_bottle = item_of (value_of "water_bottle" d);
  wine_bottle = item_of (value_of "wine_bottle" d);
  tea_bags = item_of (value_of "tea_bags" d);
  sweets = item_of (value_of "sweets" d);
  chips = item_of (value_of "chips" d);
})

abbrev pub holds : ℤ → Option ℤ → Bool
holds n none = false
holds n (some v) = leb_ℤ n v

abbrev pub matches : Document → Stock → Bool
matches nil s = true
matches (field path (doc (field op (int n) nil)) nil) s = holds n (quantity_at path s)
matches _ s = false

abbrev pub applied : Document → Stock → Stock
applied (field op (doc (field path (int d) nil)) nil) s = add_at path d s
applied _ s = s

abbrev pub counts : Bool → UpdateResult
counts true = record { matched_count = 1; modified_count = 1 }
counts false = record { matched_count = 0; modified_count = 0 }

abbrev pub updated : Document → Document → Option Stock → Result UpdateResult × Option Stock
updated filter update none = (ok (counts false), none)
updated filter update (some s) =
    if matches filter s
    then (ok (counts true), some (applied update s))
    else (ok (counts false), some s)

abbrev pub first_document : Option Stock → FindResult
first_document none = no_documents
first_document (some s) = found (encode s)

abbrev pub stocks : Collection Database
stocks = record {
  find_one = λ filter x. (first_document x.stock, x);
  update_one =
      λ filter update x. let (r, s) = updated filter update x.stock in (r, record x { stock = s });
}

pub finds : (s : Option Stock) → Finds decode s (first_document s)
finds none = refl
finds (some s) = (s, refl, refl)

pub absent :
    (filter update : Document) (s : Option Stock)
    → s ≡ none
    → let (r, t) = updated filter update s in Updated ⊥ none none r t
absent filter update none e = inr (λ f. f, refl, refl)
absent filter update (some s) e = cc

abbrev pub Answers :
    Type 0 → Document → Document → Option Stock → Option Stock → Option Stock → Type 0
Answers Fits filter update before old new =
    Updated Fits old new (updated filter update before).0 (updated filter update before).1

pub fits :
    (path : String) (n d : ℤ) (s : Stock) (v : ℤ)
    → quantity_at path s ≡ some v
    → Answers
        (n ≤ℤ v)
        (at_least path n)
        (increment path d)
        (some s)
        (some s)
        (some (add_at path d s))
fits path n d s v q = elim (Bool-cases (leb_ℤ n v)) [
  | inl e ↦ rw (q, e) (inl (ground arith, refl, refl, refl))
  | inr e ↦ rw (q, e) (inr (ground arith, refl, refl))
]

abbrev pub stocks-view : StockView stocks decode
stocks-view = record {
  stock = λ x. x.stock;
  find_reads = λ x. refl;
  find_finds = λ x. finds x.stock;
  update_absent = λ filter update x e. absent filter update x.stock e;
  update_at_least = λ path n d x s v e q _.
      subst
        (λ t.
          Answers (n ≤ℤ v) (at_least path n) (increment path d) t (some s) (some (add_at path d s)))
        (sym e) (fits path n d s v q);
  update_any = λ path d x s v e q _.
      subst (λ t. Answers (Unit {0}) nil (increment path d) t (some s) (some (add_at path d s)))
        (sym e) (inl (tt, refl, refl, refl));
}
