-- ===== src/App/Housekeeper/Retry.antt =====
-- What becomes of the stock, and what is written, when a housekeeper needs an item.
use kenshu_elaris_project_st.Base.{
  ℤ, pos, String, ◌≡◌, refl, Option, none, some, List, [], ◌∷◌, ◌++◌, append_assoc,
}
use kenshu_elaris_project_st.Domain.Errors.{Error, as_stock_insufficient}
use kenshu_elaris_project_st.Domain.Documents.{Stock}
use kenshu_elaris_project_st.Port.StockContract.{
  StockContract, Taken, Added, Short, Consumed, Restocked,
}
use kenshu_elaris_project_st.Port.StockLaws.{Consumed-insufficient}
use kenshu_elaris_project_st.App.World.{World, Entry, info, warning, failure}
use kenshu_elaris_project_st.App.Housekeeper.{
  Housekeeper, ImmediateRestocker, consume_answer, action_consume_item, log_failure, retry,
  on_error, after_first, action_consume_item_retry,
}

abbrev pub restock_line : Entry
restock_line = warning "stock item unavailable for housekeeper action, requesting restock"

-- What the others make of the stock by the next call.
abbrev pub Elapsed :
    {D : Type 0} → (D → Option Stock) → (D → D) → Option Stock → Option Stock → Type 0
Elapsed stock meanwhile before after = (x : _) × (stock x ≡ before) × (stock (meanwhile x) ≡ after)

-- How the need of an item ends: what is written, and what the stock becomes. `Elapsed` relates the stock
-- behind a call to the stock at the next one, when the others have had their turn.
pub data Attempt (Elapsed : Option Stock → Option Stock → Type 0) (name item : String)
    (quantity : ℤ) (before after : Option Stock) (lines : List Entry) : Type 0 where
  -- The first attempt takes the item.
  served :
      lines ≡ info name ∷ []
      → Taken item quantity before after
      → Attempt Elapsed name item quantity before after lines
  -- There is too little, the stoker adds 50, and the second attempt takes the item.
  served_later :
      (at_restock restocked at_second : Option Stock)
      → lines ≡ restock_line ∷ info name ∷ []
      → Short item quantity before
      → Elapsed before at_restock
      → Added item (pos 50) at_restock restocked
      → Elapsed restocked at_second
      → Taken item quantity at_second after
      → Attempt Elapsed name item quantity before after lines
  refused :
      (e : Error)
      → lines ≡ failure "failed to consume item" e ∷ []
      → as_stock_insufficient e ≡ none
      → Consumed item quantity before (some e) after
      → Attempt Elapsed name item quantity before after lines
  not_restocked :
      (at_restock : Option Stock) (e : Error)
      → lines ≡ restock_line ∷ failure "failed to restock item" e ∷ []
      → Short item quantity before
      → Elapsed before at_restock
      → Restocked item (pos 50) at_restock (some e) after
      → Attempt Elapsed name item quantity before after lines
  refused_later :
      (at_restock restocked at_second : Option Stock) (e : Error)
      → lines ≡ restock_line ∷ failure "failed to consume item after restock" e ∷ []
      → Short item quantity before
      → Elapsed before at_restock
      → Added item (pos 50) at_restock restocked
      → Elapsed restocked at_second
      → Consumed item quantity at_second (some e) after
      → Attempt Elapsed name item quantity before after lines

-- The stoker restocks 50 of an item, as the contract of the stock repository says.
pub record RestockerContract {D : Type 0} (stock : D → Option Stock) (r : ImmediateRestocker D)
    : Type 0 where
  pub restock_lem :
      (item : String) (x : D)
      → let (e, y) = r.immediate_restock item x in Restocked item (pos 50) (stock x) e (stock y)

module _ {D : Type 0} (h : Housekeeper D) (k : StockContract h.stock_repo) where
  open k use {stock, consume_lem}

  module _ (r : RestockerContract stock h.stoker) (name item : String) (quantity : ℤ) where
    second :
        (before at_restock restocked at_second : Option Stock) (v : World D) (e : Option Error)
        (y : D) (log : List Entry)
        → v.log ≡ log ++ restock_line ∷ []
        → Short item quantity before
        → Elapsed stock h.meanwhile before at_restock
        → Added item (pos 50) at_restock restocked
        → Elapsed stock h.meanwhile restocked at_second
        → Consumed item quantity at_second e (stock y)
        → let (o, v') = consume_answer h name e (record v { ext = y }) in
          let w' = (log_failure h "failed to consume item after restock" o v').1 in
          (lines : List Entry) × (w'.log ≡ log ++ lines)
          × Attempt (Elapsed stock h.meanwhile) name item quantity before (stock w'.ext) lines
    unfolding consume_answer log_failure
    second before at_restock restocked at_second v none y log at short el added el' taken = (
      restock_line ∷ info name ∷ [],
      rw at (append_assoc log _ _),
      served_later at_restock restocked at_second refl short el added el' taken,
    )
    second before at_restock restocked at_second v (some e) y log at short el added el' c = (
      restock_line ∷ failure "failed to consume item after restock" e ∷ [],
      rw at (append_assoc log _ _),
      refused_later at_restock restocked at_second e refl short el added el' c,
    )

    -- The second attempt, behind an answer of the stoker.
    second_attempt :
        (before at_restock : Option Stock) (v : World D) (e : Option Error) (y : D)
        (log : List Entry)
        → v.log ≡ log ++ restock_line ∷ []
        → Short item quantity before
        → Elapsed stock h.meanwhile before at_restock
        → Restocked item (pos 50) at_restock e (stock y)
        → let w' = (retry h name item quantity e (record v { ext = y })).1 in
          (lines : List Entry) × (w'.log ≡ log ++ lines)
          × Attempt (Elapsed stock h.meanwhile) name item quantity before (stock w'.ext) lines
    unfolding retry action_consume_item
    second_attempt before at_restock v (some e) y log at short el c = (
      restock_line ∷ failure "failed to restock item" e ∷ [],
      rw at (append_assoc log _ _),
      not_restocked at_restock e refl short el c,
    )
    second_attempt before at_restock v none y log at short el added =
        let z : D = h.meanwhile y in
        second before at_restock (stock y) (stock z) v (h.stock_repo.consume_item item quantity z).0
          (h.stock_repo.consume_item item quantity z).1 log at short el added (y, refl, refl)
          (consume_lem item quantity z)

    failed :
        (before : Option Stock) (w : World D) (e : Error) (y : D) (o : Option (String × ℤ))
        → as_stock_insufficient e ≡ o
        → Consumed item quantity before (some e) (stock y)
        → let w' = (on_error h name item quantity e o (record w { ext = y })).1 in
          (lines : List Entry) × (w'.log ≡ w.log ++ lines)
          × Attempt (Elapsed stock h.meanwhile) name item quantity before (stock w'.ext) lines
    unfolding on_error
    failed before w e y none is c =
        (failure "failed to consume item" e ∷ [], refl, refused e refl is c)
    failed before w e y (some what) is c =
        let (short, same) = Consumed-insufficient item quantity e is c in
        let z : D = h.meanwhile y in
        second_attempt before (stock z) (record w { log = w.log ++ restock_line ∷ [] })
          (h.stoker.immediate_restock item z).0 (h.stoker.immediate_restock item z).1 w.log refl
          short (y, same, refl) (r.restock_lem item z)

    first :
        (before : Option Stock) (w : World D) (e : Option Error) (y : D)
        → Consumed item quantity before e (stock y)
        → let (o, v) = consume_answer h name e (record w { ext = y }) in
          let w' = (after_first h name item quantity o v).1 in
          (lines : List Entry) × (w'.log ≡ w.log ++ lines)
          × Attempt (Elapsed stock h.meanwhile) name item quantity before (stock w'.ext) lines
    unfolding consume_answer after_first
    first before w none y taken = (info name ∷ [], refl, served refl taken)
    first before w (some e) y c = failed before w e y (as_stock_insufficient e) refl c

    pub consume_retry-Attempt :
        (w : World D)
        → let w' = (action_consume_item_retry h name item quantity w).1 in
          (lines : List Entry) × (w'.log ≡ w.log ++ lines)
          × Attempt
              (Elapsed stock h.meanwhile)
              name
              item
              quantity
              (stock (h.meanwhile w.ext))
              (stock w'.ext)
              lines
    unfolding action_consume_item_retry action_consume_item
    consume_retry-Attempt w =
        let z : D = h.meanwhile w.ext in
        first (stock z) w (h.stock_repo.consume_item item quantity z).0
          (h.stock_repo.consume_item item quantity z).1 (consume_lem item quantity z)
