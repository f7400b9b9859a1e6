-- ===== src/Port/StockContract.antt =====
-- The contract of `port.StockRepo`: what its methods promise, over the stock document that there is.
use kenshu_elaris_project_st.Base.{
  ℤ, pos, neg, ◌+ℤ◌, ◌≤ℤ◌, String, ◌≡◌, ◌⊎◌, true, Option, none, some, List, lookup, insert,
  all_space,
}
use kenshu_elaris_project_st.Domain.Errors.{
  Error, Result, ok, err, unexpected, stock_does_not_exist, stock_insufficient_quantity,
  stock_item_quantity_not_updated, validation_constrain,
}
use kenshu_elaris_project_st.Domain.Documents.{Stock, StockItem, as_map}
use kenshu_elaris_project_st.Port.{StockRepo}

-- No stock lists the item.
abbrev pub Unmanaged : String → Type 0
Unmanaged item = (s : Stock) → lookup item (as_map s) ≡ none

-- The item is listed, and exactly its quantity changed, by `d`.
pub record Changed (item_name : String) (d : ℤ) (before after : Option Stock) : Type 0 where
  pub old : Stock
  pub new : Stock
  pub item : StockItem
  pub was : before ≡ some old
  pub now : after ≡ some new
  pub listed : lookup item_name (as_map old) ≡ some item
  pub changed :
      as_map new ≡ insert item_name (record item { quantity = item.quantity +ℤ d }) (as_map old)

-- The item is listed with less than `quantity`.
pub record Short (item_name : String) (quantity : ℤ) (before : Option Stock) : Type 0 where
  pub old : Stock
  pub item : StockItem
  pub was : before ≡ some old
  pub listed : lookup item_name (as_map old) ≡ some item
  pub less : ¬ (quantity ≤ℤ item.quantity)

-- A positive quantity was taken from an item that had as much.
abbrev pub Taken : String → ℤ → Option Stock → Option Stock → Type 0
Taken item quantity before after =
    (k : Changed item (neg quantity) before after) × (quantity ≤ℤ k.item.quantity)
    × ¬ (quantity ≤ℤ pos 0)

-- A positive quantity was added to an item.
abbrev pub Added : String → ℤ → Option Stock → Option Stock → Type 0
Added item quantity before after = Changed item quantity before after × ¬ (quantity ≤ℤ pos 0)

abbrev pub Consumed : String → ℤ → Option Stock → Option Error → Option Stock → Type 0
Consumed item quantity before none after = Taken item quantity before after
Consumed item quantity before (some (stock_insufficient_quantity name n)) after =
    (name ≡ item) × (n ≡ quantity) × Short item quantity before × (after ≡ before)
Consumed item quantity before (some stock_does_not_exist) after = (before ≡ none) × (after ≡ before)
Consumed item quantity before (some (stock_item_quantity_not_updated name)) after =
    (name ≡ item) × Unmanaged item × (after ≡ before)
Consumed item quantity before (some (validation_constrain field message)) after =
    ((all_space item ≡ true) ⊎ (quantity ≤ℤ pos 0)) × (after ≡ before)
Consumed item quantity before (some (unexpected message e)) after =
    (after ≡ before) ⊎ Taken item quantity before after
Consumed item quantity before (some _) after = ⊥

abbrev pub Restocked : String → ℤ → Option Stock → Option Error → Option Stock → Type 0
Restocked item quantity before none after = Added item quantity before after
Restocked item quantity before (some stock_does_not_exist) after =
    (before ≡ none) × (after ≡ before)
Restocked item quantity before (some (stock_item_quantity_not_updated name)) after =
    (name ≡ item) × Unmanaged item × (after ≡ before)
Restocked item quantity before (some (validation_constrain field message)) after =
    ((all_space item ≡ true) ⊎ (quantity ≤ℤ pos 0)) × (after ≡ before)
Restocked item quantity before (some (unexpected message e)) after =
    (after ≡ before) ⊎ Added item quantity before after
Restocked item quantity before (some _) after = ⊥

-- `GetStock` answers the map of the stock, and changes nothing.
abbrev pub Read : Option Stock → Result (List (String × StockItem)) → Option Stock → Type 0
Read before (ok m) after = (s : Stock) × (before ≡ some s) × (m ≡ as_map s) × (after ≡ before)
Read before (err stock_does_not_exist) after = (before ≡ none) × (after ≡ before)
Read before (err (unexpected message e)) after = after ≡ before
Read before (err _) after = ⊥

pub record StockContract {D : Type 0} (r : StockRepo D) : Type 0 where
  pub stock : D → Option Stock
  pub get_lem : (x : D) → let (m, y) = r.get_stock x in Read (stock x) m (stock y)
  pub consume_lem :
      (item : String) (quantity : ℤ) (x : D)
      → let (e, y) = r.consume_item item quantity x in Consumed item quantity (stock x) e (stock y)
  pub restock_lem :
      (item : String) (quantity : ℤ) (x : D)
      → let (e, y) = r.restock_item item quantity x in Restocked item quantity (stock x) e (stock y)
