-- ===== src/Mdb/StockRepo/Restock.antt =====
-- `RestockItem` keeps its promise.
use kenshu_elaris_project_st.Base.{
  ℤ, pos, ◌≤ℤ◌, String, ◌≡◌, refl, sym, subst, inl, inr, Option, none, some,
}
use kenshu_elaris_project_st.Domain.Errors.{Error, Result, ok, err, validation_constrain}
use kenshu_elaris_project_st.Domain.Documents.{Stock}
use kenshu_elaris_project_st.Mdb.Bson.{Document, nil, increment, Collection, UpdateResult, Updated}
use kenshu_elaris_project_st.Mdb.StockView.{StockView}
use kenshu_elaris_project_st.Mdb.StockRepo.{
  stock_item_quantity_field, restocked, restock_checked, restock_item,
}
use kenshu_elaris_project_st.Mdb.StockRepo.Fields.{Agrees-field, field-err, field-Unmanaged}
use kenshu_elaris_project_st.Port.StockContract.{Added, Restocked}
use kenshu_elaris_project_st.Mdb.StockRepo.Checks.{
  checks, Checked, checks-Checked, changed_by, positive_ne,
}

module _ {D : Type 0} {c : Collection D} {decode : Document → Result Stock}
    (w : StockView c decode) where
  open w use {stock, update_absent, update_any}

  module _ (item : String) (quantity : ℤ) {Fits : Type 0} {before after : Option Stock}
      (change : Fits → (now : Option Stock) → now ≡ after → Added item quantity before now)
      (refuse : ¬ Fits → before ≡ none) where
    restocked-Restocked :
        (r : Result UpdateResult) (y : D)
        → Updated Fits before after r (stock y)
        → Restocked item quantity before
            (restocked c item (r, y)).0
            (stock (restocked c item (r, y)).1)
    unfolding restocked
    restocked-Restocked (err e) y (inl same) = inl same
    restocked-Restocked (err e) y (inr (fits, now)) = inr (change fits (stock y) now)
    restocked-Restocked (ok r) y (inl (fits, matched, modified, now)) =
        simp (matched, modified) (change fits (stock y) now)
    restocked-Restocked (ok r) y (inr (not_fits, matched, same)) =
        simp matched (refuse not_fits, same)

  restock_Checked-Restocked :
      (item : String) (quantity : ℤ) (field : Result String) (x : D) (s : Option Stock)
      → ¬ (quantity ≤ℤ pos 0)
      → stock_item_quantity_field item ≡ field
      → stock x ≡ s
      → let (r, y) = restock_checked c item quantity field x in
        Restocked item quantity s r (stock y)
  unfolding restock_checked
  restock_Checked-Restocked item quantity (err e) x s positive is was =
      subst (λ e'. Restocked item quantity s (some e') (stock x)) (sym (field-err item is))
        (refl, field-Unmanaged item is, was)
  restock_Checked-Restocked item quantity (ok path) x none positive is was =
      restocked-Restocked item quantity (λ f now e. absurd f) (λ _. refl)
        (c.update_one nil (increment path quantity) x).0
        (c.update_one nil (increment path quantity) x).1
        (update_absent nil (increment path quantity) x was)
  restock_Checked-Restocked item quantity (ok path) x (some s) positive is was =
      let a = Agrees-field item path s is in
      restocked-Restocked item quantity {Fits = Unit {0}}
        (λ f now e. (changed_by item path quantity s a now e, positive))
        (λ absent. absurd (absent tt)) (c.update_one nil (increment path quantity) x).0
        (c.update_one nil (increment path quantity) x).1
        (update_any path quantity x s a.item.quantity was a.number (positive_ne quantity positive))

  Checked-Restocked :
      (item : String) (quantity : ℤ) (x : D) (r : Option Error)
      → checks item quantity ≡ r
      → Checked item quantity r
      → let (e, y) = restock_item c item quantity x in Restocked item quantity (stock x) e (stock y)
  unfolding restock_item
  Checked-Restocked item quantity x none is (_, positive) =
      rw (is, restock_item)
        (restock_Checked-Restocked item quantity (stock_item_quantity_field item) x (stock x)
          positive refl refl)
  Checked-Restocked item quantity x (some (validation_constrain f m)) is why =
      rw (is, restock_item) (why, refl)
  Checked-Restocked item quantity x (some _) is why = absurd why

  -- Over a collection with at most one stock document that follows the manual of MongoDB,
  -- `RestockItem` answers nil only after it added exactly the positive `quantity` to the named item;
  -- it answers "does not exist" only if there is no document, "not updated" only for a name outside
  -- the switch, and a validation error only for a blank name or a quantity of zero or less; each of
  -- these leaves the stock alone. An unexpected error leaves it alone or added the quantity. No
  -- other error comes out.
  pub restock_item-Restocked :
      (item : String) (quantity : ℤ) (x : D)
      → let (e, y) = restock_item c item quantity x in Restocked item quantity (stock x) e (stock y)
  restock_item-Restocked item quantity x =
      Checked-Restocked item quantity x (checks item quantity) refl (checks-Checked item quantity)
