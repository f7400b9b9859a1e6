-- ===== src/Port/StockSafety.antt =====
-- What any calls of a stock repository keep, in whatever order the employees make them.
use kenshu_elaris_project_st.Base.{
  ℤ, pos, neg, ◌+ℤ◌, ◌≤ℤ◌, int_laws, +ℤ_parts, neg_parts, String, ◌≡◌, ◌⊎◌, sym, subst, ap, ◌∙◌,
  inl, inr, Bool-cases, true, false, Option, none, some, List, [], ◌∷◌, lookup, lookup-insert,
  str_eq, if◌then◌else◌,
}
use kenshu_elaris_project_st.Domain.Errors.{
  Error, Result, ok, err, stock_does_not_exist, unexpected,
}
use kenshu_elaris_project_st.Domain.Documents.{Stock, StockItem, as_map}
use kenshu_elaris_project_st.Port.{StockRepo}
use kenshu_elaris_project_st.Port.StockContract.{
  StockContract, Changed, Taken, Added, Consumed, Restocked, Read,
}
use kenshu_elaris_project_st.Port.StockLaws.{Consumed-error, Restocked-error}

-- No item has a quantity below zero.
abbrev pub NonNegative : Option Stock → Type 0
NonNegative none = Unit
NonNegative (some s) =
    (name : String) (item : StockItem) → lookup name (as_map s) ≡ some item → pos 0 ≤ℤ item.quantity

abbrev FoundNonNegative : Option StockItem → Type 0
FoundNonNegative none = Unit
FoundNonNegative (some item) = pos 0 ≤ℤ item.quantity

Changed-NonNegative :
    (name : String) (d : ℤ) (before after : Option Stock) (k : Changed name d before after)
    → pos 0 ≤ℤ k.item.quantity +ℤ d
    → NonNegative before
    → NonNegative after
Changed-NonNegative name d before after k enough h =
    rw k.now (λ other item found. at_name other item found (Bool-cases (str_eq name other)))
  where
    old : NonNegative (some k.old)
    old = subst NonNegative k.was h

    new_item : StockItem
    new_item = record k.item { quantity = k.item.quantity +ℤ d }

    reads :
        (other : String) (item : StockItem)
        → lookup other (as_map k.new) ≡ some item
        → (if str_eq name other then some new_item else lookup other (as_map k.old)) ≡ some item
    reads other item found =
        lookup-insert (as_map k.old) name other new_item ∙ ap (lookup other) (sym k.changed) ∙ found

    at_name :
        (other : String) (item : StockItem)
        → lookup other (as_map k.new) ≡ some item
        → (str_eq name other ≡ true) ⊎ (str_eq name other ≡ false)
        → pos 0 ≤ℤ item.quantity
    at_name other item found (inl same) =
        subst FoundNonNegative (rw same at (reads other item found)) enough
    at_name other item found (inr apart) = old other item (rw apart at (reads other item found))

Taken-NonNegative :
    (name : String) (quantity : ℤ) (before after : Option Stock)
    → Taken name quantity before after
    → NonNegative before
    → NonNegative after
Taken-NonNegative name quantity before after (k, had, positive) h =
    Changed-NonNegative name (neg quantity) before after k
      (omega (int_laws, had, +ℤ_parts k.item.quantity (neg quantity), neg_parts quantity)) h

Added-NonNegative :
    (name : String) (quantity : ℤ) (before after : Option Stock)
    → Added name quantity before after
    → NonNegative before
    → NonNegative after
Added-NonNegative name quantity before after (k, positive) h =
    Changed-NonNegative name quantity before after k
      (omega (int_laws, positive, +ℤ_parts k.item.quantity quantity, before_held)) h
  where
    before_held : pos 0 ≤ℤ k.item.quantity
    before_held = subst NonNegative k.was h name k.item k.listed

Consumed-NonNegative :
    (name : String) (quantity : ℤ) (e : Option Error) (before after : Option Stock)
    → Consumed name quantity before e after
    → NonNegative before
    → NonNegative after
Consumed-NonNegative name quantity none before after c h =
    Taken-NonNegative name quantity before after c h
Consumed-NonNegative name quantity (some e) before after c h =
    elim (Consumed-error name quantity e c) [
      | inl same ↦ rw same h
      | inr taken ↦ Taken-NonNegative name quantity before after taken h
    ]

Restocked-NonNegative :
    (name : String) (quantity : ℤ) (e : Option Error) (before after : Option Stock)
    → Restocked name quantity before e after
    → NonNegative before
    → NonNegative after
Restocked-NonNegative name quantity none before after c h =
    Added-NonNegative name quantity before after c h
Restocked-NonNegative name quantity (some e) before after c h =
    elim (Restocked-error name quantity e c) [
      | inl same ↦ rw same h
      | inr added ↦ Added-NonNegative name quantity before after added h
    ]

Read-same :
    (m : Result (List (String × StockItem))) (before after : Option Stock)
    → Read before m after
    → after ≡ before
Read-same (ok m) before after (s, was, is, same) = same
Read-same (err stock_does_not_exist) before after (was, same) = same
Read-same (err (unexpected message e)) before after same = same
Read-same (err _) before after c = absurd c

-- A call of the repository, by whichever employee.
pub data Call : Type 0 where
  gets : Call
  consumes : (item_name : String) (quantity : ℤ) → Call
  restocks : (item_name : String) (quantity : ℤ) → Call

module _ {D : Type 0} (r : StockRepo D) where
  -- The state after some calls, one behind the other as the mutex orders them.
  abbrev pub after_calls : List Call → D → D
  after_calls [] x = x
  after_calls (gets ∷ calls) x = after_calls calls (r.get_stock x).1
  after_calls (consumes name quantity ∷ calls) x =
      after_calls calls (r.consume_item name quantity x).1
  after_calls (restocks name quantity ∷ calls) x =
      after_calls calls (r.restock_item name quantity x).1

  module _ (k : StockContract r) where
    open k use {stock, get_lem, consume_lem, restock_lem}

    pub calls-NonNegative :
        (calls : List Call) (x : D)
        → NonNegative (stock x)
        → NonNegative (stock (after_calls calls x))
    calls-NonNegative [] x h = h
    calls-NonNegative (gets ∷ calls) x h =
        calls-NonNegative calls (r.get_stock x).1
          (rw (Read-same (r.get_stock x).0 (stock x) (stock (r.get_stock x).1) (get_lem x)) h)
    calls-NonNegative (consumes name quantity ∷ calls) x h =
        let (e, y) = r.consume_item name quantity x in
        calls-NonNegative calls y
          (Consumed-NonNegative name quantity e (stock x) (stock y) (consume_lem name quantity x) h)
    calls-NonNegative (restocks name quantity ∷ calls) x h =
        let (e, y) = r.restock_item name quantity x in
        calls-NonNegative calls y (
          Restocked-NonNegative name quantity e (stock x) (stock y) (restock_lem name quantity x) h)
