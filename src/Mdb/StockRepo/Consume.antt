-- ===== src/Mdb/StockRepo/Consume.antt =====
-- `ConsumeItem` keeps its promise.
use kenshu_elaris_project_st.Base.{
  ℤ, pos, neg, ◌≤ℤ◌, String, ◌≡◌, refl, sym, subst, ◌∙◌, ◌⊎◌, inl, inr, Option, none, some,
}
use kenshu_elaris_project_st.Domain.Errors.{Error, Result, ok, err, validation_constrain}
use kenshu_elaris_project_st.Domain.Documents.{Stock}
use kenshu_elaris_project_st.Mdb.Bson.{
  Document, nil, at_least, increment, FindResult, found, no_documents, find_failed, Collection,
  UpdateResult, Updated,
}
use kenshu_elaris_project_st.Mdb.StockView.{StockView, Finds}
use kenshu_elaris_project_st.Mdb.StockRepo.{
  stock_item_quantity_field, existence, stock_document_exists, no_match, consumed, consume_checked,
  consume_item,
}
use kenshu_elaris_project_st.Mdb.StockRepo.Fields.{Agrees-field, field-err, field-Unmanaged}
use kenshu_elaris_project_st.Port.StockContract.{Taken, Short, Consumed}
use kenshu_elaris_project_st.Mdb.StockRepo.Checks.{
  checks, Checked, checks-Checked, changed_by, positive-neg,
}

module _ {D : Type 0} {c : Collection D} {decode : Document → Result Stock}
    (w : StockView c decode) where
  open w use {stock, find_reads, find_finds, update_absent, update_at_least}

  look_found :
      (item : String) (quantity : ℤ) (before : Option Stock) (r : FindResult) (z : D)
      → Finds decode before r
      → stock z ≡ before
      → (before ≡ none) ⊎ Short item quantity before
      → Consumed item quantity before
          (no_match c item quantity (existence r, z)).0
          (stock (no_match c item quantity (existence r, z)).1)
  unfolding no_match existence
  look_found item quantity before (found d) z (s, _, e) same (inl absent) = cc
  look_found item quantity before (found d) z f same (inr short) = (refl, refl, short, same)
  look_found item quantity before no_documents z f same why = (f, same)
  look_found item quantity before (find_failed e) z f same why = inl same

  look_again :
      (item : String) (quantity : ℤ) (before : Option Stock) (y : D)
      → stock y ≡ before
      → (before ≡ none) ⊎ Short item quantity before
      → Consumed item quantity before
          (no_match c item quantity (stock_document_exists c y)).0
          (stock (no_match c item quantity (stock_document_exists c y)).1)
  unfolding stock_document_exists
  look_again item quantity before y same why =
      look_found item quantity before (c.find_one nil y).0 (c.find_one nil y).1
        (subst (λ s. Finds decode s (c.find_one nil y).0) same (find_finds y)) (find_reads y ∙ same)
        why

  module _ (item : String) (quantity : ℤ) {Fits : Type 0} {before after : Option Stock}
      (change : Fits → (now : Option Stock) → now ≡ after → Taken item quantity before now)
      (refuse : ¬ Fits → (before ≡ none) ⊎ Short item quantity before) where
    consumed-Consumed :
        (r : Result UpdateResult) (y : D)
        → Updated Fits before after r (stock y)
        → Consumed item quantity before
            (consumed c item quantity (r, y)).0
            (stock (consumed c item quantity (r, y)).1)
    unfolding consumed
    consumed-Consumed (err e) y (inl same) = inl same
    consumed-Consumed (err e) y (inr (fits, now)) = inr (change fits (stock y) now)
    consumed-Consumed (ok r) y (inl (fits, matched, modified, now)) =
        simp (matched, modified) (change fits (stock y) now)
    consumed-Consumed (ok r) y (inr (not_fits, matched, same)) =
        simp matched (look_again item quantity before y same (refuse not_fits))

  consume_Checked-Consumed :
      (item : String) (quantity : ℤ) (field : Result String) (x : D) (s : Option Stock)
      → ¬ (quantity ≤ℤ pos 0)
      → stock_item_quantity_field item ≡ field
      → stock x ≡ s
      → let (r, y) = consume_checked c item quantity field x in Consumed item quantity s r (stock y)
  unfolding consume_checked
  consume_Checked-Consumed item quantity (err e) x s positive is was =
      subst (λ e'. Consumed item quantity s (some e') (stock x)) (sym (field-err item is))
        (refl, field-Unmanaged item is, was)
  consume_Checked-Consumed item quantity (ok path) x none positive is was =
      consumed-Consumed item quantity (λ f now e. absurd f) (λ _. inl refl)
        (c.update_one (at_least path quantity) (increment path (neg quantity)) x).0
        (c.update_one (at_least path quantity) (increment path (neg quantity)) x).1
        (update_absent (at_least path quantity) (increment path (neg quantity)) x was)
  consume_Checked-Consumed item quantity (ok path) x (some s) positive is was =
      let a = Agrees-field item path s is in
      consumed-Consumed item quantity {Fits = quantity ≤ℤ a.item.quantity}
        (λ f now e. (changed_by item path (neg quantity) s a now e, f, positive))
        (λ less.
          inr (record { old = s; item = a.item; was = refl; listed = a.listed; less = less }))
        (c.update_one (at_least path quantity) (increment path (neg quantity)) x).0
        (c.update_one (at_least path quantity) (increment path (neg quantity)) x).1
        (update_at_least path quantity (neg quantity) x s a.item.quantity was a.number
          (positive-neg quantity positive))

  Checked-Consumed :
      (item : String) (quantity : ℤ) (x : D) (r : Option Error)
      → checks item quantity ≡ r
      → Checked item quantity r
      → let (e, y) = consume_item c item quantity x in Consumed item quantity (stock x) e (stock y)
  unfolding consume_item
  Checked-Consumed item quantity x none is (_, positive) =
      rw (is, consume_item)
        (consume_Checked-Consumed item quantity (stock_item_quantity_field item) x (stock x)
          positive refl refl)
  Checked-Consumed item quantity x (some (validation_constrain f m)) is why =
      rw (is, consume_item) (why, refl)
  Checked-Consumed item quantity x (some _) is why = absurd why

  -- Over a collection with at most one stock document that follows the manual of MongoDB,
  -- `ConsumeItem` answers nil only after it took exactly `quantity` from the named item, which had
  -- that much; it answers "insufficient" only if the document lists the item with less, "does not
  -- exist" only if there is no document, "not updated" only for a name outside the switch, and a
  -- validation error only for a blank name or a quantity of zero or less; each of these leaves the
  -- stock alone. An unexpected error leaves it alone or took the quantity. No other error comes out.
  pub consume_item-Consumed :
      (item : String) (quantity : ℤ) (x : D)
      → let (e, y) = consume_item c item quantity x in Consumed item quantity (stock x) e (stock y)
  consume_item-Consumed item quantity x =
      Checked-Consumed item quantity x (checks item quantity) refl (checks-Checked item quantity)
