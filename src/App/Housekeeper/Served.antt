-- ===== src/App/Housekeeper/Served.antt =====
-- When a housekeeper ends up with the item: a restock is enough, unless the others are faster.
use kenshu_elaris_project_st.Base.{
  ℤ, pos, ◌≤ℤ◌, ◌+ℤ◌, String, ◌≡◌, refl, sym, subst, ◌∙◌, ◌⊎◌, inl, inr, Option, none, some, List,
  [], ◌∷◌, ◌++◌, arith, int_laws, lookup, +ℤ_parts,
}
use mathlib.Core.List.{append_cancel_left}
use kenshu_elaris_project_st.Domain.Errors.{
  Error, as_stock_insufficient, unexpected, stock_does_not_exist, stock_insufficient_quantity,
  stock_item_quantity_not_updated, validation_constrain,
}
use kenshu_elaris_project_st.Domain.Documents.{Stock, StockItem, as_map}
use kenshu_elaris_project_st.Port.StockContract.{
  StockContract, Changed, Taken, Added, Short, Consumed, Restocked,
}
use kenshu_elaris_project_st.Port.StockLaws.{
  listed-not-blank, Changed-listed, Consumed-insufficient,
}
use kenshu_elaris_project_st.App.World.{World, Entry, failure}
use kenshu_elaris_project_st.App.Housekeeper.{Housekeeper, action_consume_item_retry}
use kenshu_elaris_project_st.App.Housekeeper.Retry.{
  RestockerContract, Elapsed, Attempt, served, served_later, refused, not_restocked, refused_later,
  consume_retry-Attempt,
}

-- No line reports an unexpected error of the database.
abbrev pub AllExpected : List Entry → Type 0
AllExpected [] = Unit
AllExpected (failure text (unexpected message e) ∷ lines) = ⊥
AllExpected (line ∷ lines) = AllExpected lines

-- The document is there and lists the item, with no negative quantity.
pub record Stocked (item : String) (s : Option Stock) : Type 0 where
  pub document : Stock
  pub is : s ≡ some document
  pub entry : StockItem
  pub listed : lookup item (as_map document) ≡ some entry
  pub nonneg : pos 0 ≤ℤ entry.quantity

-- The item was taken, from what there was, or, after 50 were added, from what the others left.
abbrev pub Served :
    (Option Stock → Option Stock → Type 0) → String → ℤ → Option Stock → Option Stock → Type 0
Served Elapsed item quantity before after =
    Taken item quantity before after
    ⊎ ((at_restock : Option Stock) × (restocked : Option Stock) × (at_second : Option Stock) × Short
          item quantity before
        × Elapsed before at_restock
        × Added item (pos 50) at_restock restocked
        × Elapsed restocked at_second
        × Taken item quantity at_second after)

-- 50 were added, so that there was enough, and by the second attempt the others had taken so much of it
-- that there was too little, and nothing was taken.
pub record Outrun (Elapsed : Option Stock → Option Stock → Type 0) (item : String) (quantity : ℤ)
    (before after : Option Stock) : Type 0 where
  pub at_restock : Option Stock
  pub restocked : Option Stock
  pub at_second : Option Stock
  pub short : Short item quantity before
  pub elapsed : Elapsed before at_restock
  pub added : Added item (pos 50) at_restock restocked
  pub there : Stocked item restocked
  pub enough : quantity ≤ℤ there.entry.quantity
  pub elapsed_again : Elapsed restocked at_second
  pub short_again : Short item quantity at_second
  pub same : after ≡ at_second

module _ (item : String) (quantity : ℤ) (positive : ¬ (quantity ≤ℤ pos 0)) where
  Stocked-Short :
      (before : Option Stock) (s : Stocked item before) (k : Short item quantity before)
      → ¬ (quantity ≤ℤ s.entry.quantity)
  Stocked-Short before s k enough = k.less (subst (λ i. quantity ≤ℤ i.quantity) same_entry enough)
    where
      same_document : s.document ≡ k.old
      same_document = cc (s.is, k.was)

      same_entry : s.entry ≡ k.item
      same_entry = cc (s.listed, k.listed, same_document)

  -- A listed item is refused only for being short, or by an unexpected error.
  not_refused :
      (text : String) (e : Error) (lines : List Entry) (before after : Option Stock)
      (s : Stocked item before)
      → (as_stock_insufficient e ≡ none) ⊎ (quantity ≤ℤ s.entry.quantity)
      → AllExpected (failure text e ∷ lines)
      → Consumed item quantity before (some e) after
      → ⊥
  unfolding as_stock_insufficient
  not_refused text (stock_insufficient_quantity n q) lines before after s (inl is) ok c = cc is
  not_refused text (stock_insufficient_quantity n q) lines before after s (inr enough) ok c =
      Stocked-Short before s c.2 enough
  not_refused text stock_does_not_exist lines before after s why ok c = cc (s.is, c.0)
  not_refused text (stock_item_quantity_not_updated n) lines before after s why ok c =
      cc (s.listed, c.1 s.document)
  not_refused text (validation_constrain f m) lines before after s why ok (inl blank, _) =
      cc (blank, listed-not-blank item s.document s.listed)
  not_refused text (validation_constrain f m) lines before after s why ok (inr small, _) =
      positive small
  not_refused text (unexpected m e) lines before after s why ok c = ok
  not_refused text _ lines before after s why ok c = c

  not_unstocked :
      (text : String) (e : Error) (lines : List Entry) (before after : Option Stock)
      → Stocked item before
      → AllExpected (failure text e ∷ lines)
      → Restocked item (pos 50) before (some e) after
      → ⊥
  not_unstocked text stock_does_not_exist lines before after s ok c = cc (s.is, c.0)
  not_unstocked text (stock_item_quantity_not_updated n) lines before after s ok c =
      cc (s.listed, c.1 s.document)
  not_unstocked text (validation_constrain f m) lines before after s ok (inl blank, _) =
      cc (blank, listed-not-blank item s.document s.listed)
  not_unstocked text (validation_constrain f m) lines before after s ok (inr small, _) =
      omega (arith, small)
  not_unstocked text (unexpected m e) lines before after s ok c = ok
  not_unstocked text _ lines before after s ok c = c

  -- After a restock the item is there with at least 50.
  Added-Stocked :
      (before between : Option Stock) (s : Stocked item before)
      (k : Changed item (pos 50) before between)
      → (t : Stocked item between) × (pos 50 ≤ℤ t.entry.quantity)
  Added-Stocked before between s k = (
    record {
      document = k.new;
      is = k.now;
      entry = record k.item { quantity = k.item.quantity +ℤ pos 50 };
      listed = Changed-listed k;
      nonneg = omega (arith, more);
    },
    more,
  )
    where
      same_document : s.document ≡ k.old
      same_document = cc (s.is, k.was)

      same_entry : s.entry ≡ k.item
      same_entry = cc (s.listed, k.listed, same_document)

      nonneg : pos 0 ≤ℤ k.item.quantity
      nonneg = subst (λ i. pos 0 ≤ℤ i.quantity) same_entry s.nonneg

      more : pos 50 ≤ℤ k.item.quantity +ℤ pos 50
      more = omega (int_laws, nonneg, +ℤ_parts k.item.quantity (pos 50))

  module _ {Elapsed : Option Stock → Option Stock → Type 0}
      (stays : (s t : Option Stock) → Elapsed s t → Stocked item s → Stocked item t) where
    -- The second attempt is refused for being short, or by an unexpected error.
    refused-Outrun :
        (before at_restock restocked at_second after : Option Stock) (e : Error)
        (what : Option (String × ℤ))
        → as_stock_insufficient e ≡ what
        → quantity ≤ℤ pos 50
        → Stocked item before
        → AllExpected (failure "failed to consume item after restock" e ∷ [])
        → Short item quantity before
        → Elapsed before at_restock
        → Added item (pos 50) at_restock restocked
        → Elapsed restocked at_second
        → Consumed item quantity at_second (some e) after
        → Outrun Elapsed item quantity before after
    refused-Outrun before at_restock restocked at_second after e none is small s ok short el added
          el' c =
        let (t, more) = Added-Stocked at_restock restocked (stays before at_restock el s) added.0 in
        absurd (
          not_refused "failed to consume item after restock" e [] at_second after
            (stays restocked at_second el' t) (inl is) ok c)
    refused-Outrun before at_restock restocked at_second after e (some what) is small s ok short el
          added el' c =
        let (t, more) = Added-Stocked at_restock restocked (stays before at_restock el s) added.0 in
        let (again, same) = Consumed-insufficient item quantity e is c in
        record {
          at_restock = at_restock;
          restocked = restocked;
          at_second = at_second;
          short = short;
          elapsed = el;
          added = added;
          there = t;
          enough = omega (arith, more, small);
          elapsed_again = el';
          short_again = again;
          same = same;
        }

    Attempt-Served :
        (name : String) (before after : Option Stock) (lines : List Entry)
        → quantity ≤ℤ pos 50
        → Stocked item before
        → AllExpected lines
        → Attempt Elapsed name item quantity before after lines
        → Served Elapsed item quantity before after ⊎ Outrun Elapsed item quantity before after
    Attempt-Served name before after lines small s ok (served is taken) = inl (inl taken)
    Attempt-Served name before after lines small s ok
          (served_later at_restock restocked at_second is short el added el' taken) =
        inl (inr (at_restock, restocked, at_second, short, el, added, el', taken))
    Attempt-Served name before after lines small s ok (refused e is why c) = absurd (
        not_refused "failed to consume item" e [] before after s (inl why) (subst AllExpected is ok)
          c)
    Attempt-Served name before after lines small s ok (not_restocked at_restock e is short el c) =
        absurd (
          not_unstocked "failed to restock item" e [] at_restock after
            (stays before at_restock el s) (subst AllExpected is ok) c)
    Attempt-Served name before after lines small s ok
          (refused_later at_restock restocked at_second e is short el added el' c) =
        inr (
          refused-Outrun before at_restock restocked at_second after e (as_stock_insufficient e)
            refl small s (subst AllExpected is ok) short el added el' c)

-- If the stock lists the item with no negative quantity when a housekeeper needs a positive quantity
-- of at most 50 of it, the others keep it so between the calls, and the lines that the call writes
-- report no unexpected error, then the housekeeper gets it, at once or after one restock, or else
-- there was enough behind that restock, and the others took so much of it, before the second
-- attempt, that this one found too little and took nothing.
pub consume_retry-Served :
    {D : Type 0} (h : Housekeeper D) (k : StockContract h.stock_repo)
    (r : RestockerContract k.stock h.stoker) (name item : String) (quantity : ℤ) (w : World D)
    (lines : List Entry)
    → ¬ (quantity ≤ℤ pos 0)
    → quantity ≤ℤ pos 50
    → ((x : D) → Stocked item (k.stock x) → Stocked item (k.stock (h.meanwhile x)))
    → Stocked item (k.stock (h.meanwhile w.ext))
    → (action_consume_item_retry h name item quantity w).1.log ≡ w.log ++ lines
    → AllExpected lines
    → let before = k.stock (h.meanwhile w.ext) in
      let after = k.stock (action_consume_item_retry h name item quantity w).1.ext in
      Served (Elapsed k.stock h.meanwhile) item quantity before after
      ⊎ Outrun (Elapsed k.stock h.meanwhile) item quantity before after
consume_retry-Served h k r name item quantity w lines positive small keeps s at ok =
    let (written, log, attempt) = consume_retry-Attempt h k r name item quantity w in
    Attempt-Served item quantity positive
      (λ t u (x, was, now) stocked.
        subst (Stocked item) now (keeps x (subst (Stocked item) (sym was) stocked)))
      name _ _ written small s (subst AllExpected (append_cancel_left w.log _ _ (sym at ∙ log)) ok)
      attempt
