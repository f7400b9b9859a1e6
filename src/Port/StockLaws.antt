-- ===== src/Port/StockLaws.antt =====
-- What a client reads off the contract of the stock repository.
use kenshu_elaris_project_st.Base.{
  ℤ, ◌+ℤ◌, String, lookup, all_space, lookup-Entries, Entries, lookup-insert, is_space, str_eq_iff,
  false, ◌≡◌, refl, ◌⊎◌, inl, Option, some,
}
use kenshu_elaris_project_st.Domain.Errors.{
  Error, as_stock_insufficient, unexpected, stock_does_not_exist, stock_insufficient_quantity,
  stock_item_quantity_not_updated, validation_constrain,
}
use kenshu_elaris_project_st.Domain.Documents.{Stock, StockItem, as_map}
use kenshu_elaris_project_st.Port.StockContract.{Changed, Taken, Added, Short, Consumed, Restocked}

module _ (item : String) (quantity : ℤ) {before after : Option Stock} where
  pub Consumed-error :
      (e : Error)
      → Consumed item quantity before (some e) after
      → (after ≡ before) ⊎ Taken item quantity before after
  Consumed-error (stock_insufficient_quantity name n) c = inl c.3
  Consumed-error stock_does_not_exist c = inl c.1
  Consumed-error (stock_item_quantity_not_updated name) c = inl c.2
  Consumed-error (validation_constrain field message) c = inl c.1
  Consumed-error (unexpected message e) c = c
  Consumed-error _ c = absurd c

  pub Restocked-error :
      (e : Error)
      → Restocked item quantity before (some e) after
      → (after ≡ before) ⊎ Added item quantity before after
  Restocked-error stock_does_not_exist c = inl c.1
  Restocked-error (stock_item_quantity_not_updated name) c = inl c.2
  Restocked-error (validation_constrain field message) c = inl c.1
  Restocked-error (unexpected message e) c = c
  Restocked-error _ c = absurd c

  -- An error that reads as insufficient stock: there is too little, and nothing changed.
  pub Consumed-insufficient :
      (e : Error) {what : String × ℤ}
      → as_stock_insufficient e ≡ some what
      → Consumed item quantity before (some e) after
      → Short item quantity before × (after ≡ before)
  unfolding as_stock_insufficient
  Consumed-insufficient (stock_insufficient_quantity name n) is c = (c.2, c.3)
  Consumed-insufficient stock_does_not_exist is c = cc is
  Consumed-insufficient (stock_item_quantity_not_updated name) is c = cc is
  Consumed-insufficient (validation_constrain field message) is c = cc is
  Consumed-insufficient (unexpected message e) is c = cc is
  Consumed-insufficient _ is c = absurd c

-- It names the item that was asked for.
pub Consumed-name :
    (item : String) (quantity : ℤ) (before after : Option Stock) (e : Error) {what : String × ℤ}
    → as_stock_insufficient e ≡ some what
    → Consumed item quantity before (some e) after
    → what.0 ≡ item
unfolding as_stock_insufficient
Consumed-name item quantity before after (stock_insufficient_quantity name n) is c = cc (is, c.0)
Consumed-name item quantity before after stock_does_not_exist is c = cc is
Consumed-name item quantity before after (stock_item_quantity_not_updated name) is c = cc is
Consumed-name item quantity before after (validation_constrain field message) is c = cc is
Consumed-name item quantity before after (unexpected message e) is c = cc is
Consumed-name item quantity before after _ is c = absurd c

-- An item that the stock lists has a name with a character that is no white space.
pub listed-not-blank :
    (item : String) (s : Stock) {i : StockItem}
    → lookup item (as_map s) ≡ some i
    → all_space item ≡ false
unfolding as_map all_space is_space
listed-not-blank item s = lookup-Entries (λ name _. all_space name ≡ false) item (as_map s) (all s)
  where
    all : (t : Stock) → Entries (λ name _. all_space name ≡ false) (as_map t)
    all t = (refl, (refl, (refl, (refl, (refl, (refl, (refl, (refl, (refl, tt)))))))))

-- What a change leaves under the name of its item.
pub Changed-listed :
    {item : String} {d : ℤ} {before after : Option Stock} (k : Changed item d before after)
    → lookup item (as_map k.new) ≡ some (record k.item { quantity = k.item.quantity +ℤ d })
Changed-listed {item} k = rw (k.changed, ← lookup-insert _ _ _ _, (str_eq_iff item item).1 refl)
