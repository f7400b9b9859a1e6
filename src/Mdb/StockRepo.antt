-- ===== src/Mdb/StockRepo.antt =====
-- internal/infra/mdb/stock_repo.go. The mutex makes each method one step, so a method is a function
-- of the state. `decode` is the driver's `Decode` into a `documents.Stock`. The texts of unexpected
-- errors leave the formatted arguments out.
pub mod Fields
mod Checks
pub mod Consume
pub mod Restock
pub mod Read
pub mod Safety
use kenshu_elaris_project_st.Base.{
  ℤ, neg, ◌==◌, String, Bool, true, false, Option, none, some, List, [], ◌∷◌, lookup, if◌then◌else◌,
}
use kenshu_elaris_project_st.Domain.Errors.{
  Error, Result, ok, err, unexpected, corrupted_data, stock_does_not_exist,
  stock_insufficient_quantity, stock_item_quantity_not_updated,
}
use kenshu_elaris_project_st.Domain.Documents.{
  Stock, StockItem, as_map, cleaning_item, soap, bathroom_amenities, aroma_candle, water_bottle,
  wine_bottle, tea_bags, sweets, chips,
}
use kenshu_elaris_project_st.Port.{StockRepo}
use kenshu_elaris_project_st.Validation.{new, validate_error, not_blank, positive_value}
use kenshu_elaris_project_st.Mdb.Bson.{
  Document, nil, at_least, increment, FindResult, found, no_documents, find_failed, Collection,
  UpdateResult,
}

-- The cases of the `switch` of `stockItemQuantityField`.
abbrev pub quantity_fields : List (String × String)
quantity_fields =
    (cleaning_item, "cleaning_items.quantity")
    ∷ (soap, "soap.quantity")
    ∷ (bathroom_amenities, "bathroom_amenities.quantity")
    ∷ (aroma_candle, "aroma_candles.quantity")
    ∷ (water_bottle, "water_bottle.quantity")
    ∷ (wine_bottle, "wine_bottle.quantity")
    ∷ (tea_bags, "tea_bags.quantity")
    ∷ (sweets, "sweets.quantity")
    ∷ (chips, "chips.quantity")
    ∷ []

unfoldable pub stock_item_quantity_field : String → Result String
stock_item_quantity_field item_name = elim (lookup item_name quantity_fields) [
  | some path ↦ ok path
  | none ↦ err (stock_item_quantity_not_updated item_name)
]

existence : FindResult → Result Bool
existence (found d) = ok true
existence no_documents = ok false
existence (find_failed e) = err (unexpected "failed to find stock" e)

decoded : Result Stock → Result (List (String × StockItem))
decoded (ok s) = ok (as_map s)
decoded (err e) = err (corrupted_data e)

stock_map : (Document → Result Stock) → FindResult → Result (List (String × StockItem))
unfolding decoded
stock_map decode (found d) = decoded (decode d)
stock_map decode no_documents = err stock_does_not_exist
stock_map decode (find_failed e) = err (unexpected "failed to find stock" e)

module _ {D : Type 0} (c : Collection D) where
  unfoldable pub stock_document_exists : D → Result Bool × D
  unfolding existence
  stock_document_exists x = let (r, y) = c.find_one nil x in (existence r, y)

  unfoldable pub get_stock : (Document → Result Stock) → D → Result (List (String × StockItem)) × D
  unfolding stock_map
  get_stock decode x = let (r, y) = c.find_one nil x in (stock_map decode r, y)

  -- What `ConsumeItem` answers to a result with no match, after a look for the document.
  no_match : String → ℤ → Result Bool × D → Option Error × D
  no_match item_name quantity (ok true, x) =
      (some (stock_insufficient_quantity item_name quantity), x)
  no_match item_name quantity (ok false, x) = (some stock_does_not_exist, x)
  no_match item_name quantity (err e, x) = (some e, x)

  consumed : String → ℤ → Result UpdateResult × D → Option Error × D
  unfolding no_match stock_document_exists
  consumed item_name quantity (err e, x) = (some (unexpected "could not consume stock item" e), x)
  consumed item_name quantity (ok r, x) =
      if r.matched_count == 0
      then no_match item_name quantity (stock_document_exists x)
      else if r.modified_count == 0
      then (some (stock_item_quantity_not_updated item_name), x)
      else (none, x)

  restocked : String → Result UpdateResult × D → Option Error × D
  restocked item_name (err e, x) = (some (unexpected "could not restock stock item" e), x)
  restocked item_name (ok r, x) =
      if r.matched_count == 0
      then (some stock_does_not_exist, x)
      else if r.modified_count == 0
      then (some (stock_item_quantity_not_updated item_name), x)
      else (none, x)

  consume_checked : String → ℤ → Result String → D → Option Error × D
  unfolding consumed
  consume_checked item_name quantity (err e) x = (some e, x)
  consume_checked item_name quantity (ok path) x =
      consumed item_name quantity
        (c.update_one (at_least path quantity) (increment path (neg quantity)) x)

  restock_checked : String → ℤ → Result String → D → Option Error × D
  unfolding restocked
  restock_checked item_name quantity (err e) x = (some e, x)
  restock_checked item_name quantity (ok path) x =
      restocked item_name (c.update_one nil (increment path quantity) x)

  unfoldable pub consume_item : String → ℤ → D → Option Error × D
  unfolding consume_checked
  consume_item item_name quantity x =
      elim (validate_error
        (positive_value "quantity" quantity (not_blank "itemName" item_name new))) [
          | some e ↦ (some e, x)
          | none ↦ consume_checked item_name quantity (stock_item_quantity_field item_name) x
        ]

  unfoldable pub restock_item : String → ℤ → D → Option Error × D
  unfolding restock_checked
  restock_item item_name quantity x =
      elim (validate_error
        (positive_value "quantity" quantity (not_blank "itemName" item_name new))) [
          | some e ↦ (some e, x)
          | none ↦ restock_checked item_name quantity (stock_item_quantity_field item_name) x
        ]

  -- `NewStockRepo`, as the port sees what it returns.
  abbrev pub stock_repo : (Document → Result Stock) → StockRepo D
  stock_repo decode = record {
    get_stock = get_stock decode;
    consume_item = consume_item;
    restock_item = restock_item;
  }
