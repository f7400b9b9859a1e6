-- ===== src/Mdb/StockRepo/Fields.antt =====
-- The three tables that name the stock items: `stockItemQuantityField`, the `bson` tags of
-- `documents.Stock`, and `AsMap`.
use kenshu_elaris_project_st.Base.{
  ℤ, ◌+ℤ◌, String, ◌≡◌, refl, some, lookup, insert, Entries, lookup-Entries, arith,
}
use kenshu_elaris_project_st.Domain.Errors.{Error, ok, err, stock_item_quantity_not_updated}
use kenshu_elaris_project_st.Domain.Documents.{Stock, StockItem, as_map, quantity_at, add_at}
use kenshu_elaris_project_st.Port.StockContract.{Unmanaged}
use kenshu_elaris_project_st.Mdb.StockRepo.{quantity_fields, stock_item_quantity_field}

-- A path that the switch answers is an entry of its table.
pub field-lookup :
    (item_name path : String)
    → stock_item_quantity_field item_name ≡ ok path
    → lookup item_name quantity_fields ≡ some path
unfolding stock_item_quantity_field
field-lookup item_name path e = ground arith

pub field_entries {κ} :
    (P : String → String → Type κ) (item_name path : String)
    → Entries P quantity_fields
    → stock_item_quantity_field item_name ≡ ok path
    → P item_name path
field_entries P item_name path all e =
    lookup-Entries P item_name quantity_fields all (field-lookup item_name path e)

-- The only error of the switch.
pub field-err :
    (item_name : String) {e : Error}
    → stock_item_quantity_field item_name ≡ err e
    → e ≡ stock_item_quantity_not_updated item_name
unfolding stock_item_quantity_field
field-err item_name h = ground arith

-- A name outside the switch is in no map of the stock.
pub field-Unmanaged :
    (item_name : String) {e : Error}
    → stock_item_quantity_field item_name ≡ err e
    → Unmanaged item_name
unfolding stock_item_quantity_field as_map
field-Unmanaged item_name h s = ground arith

-- What the switch and the tags say of one item, in a document.
pub record Agrees (s : Stock) (item_name path : String) : Type 0 where
  pub item : StockItem
  pub number : quantity_at path s ≡ some item.quantity
  pub listed : lookup item_name (as_map s) ≡ some item
  pub added :
      (d : ℤ)
      → as_map (add_at path d s)
        ≡ insert item_name (record item { quantity = item.quantity +ℤ d }) (as_map s)

fields_agree : (s : Stock) → Entries (Agrees s) quantity_fields
unfolding quantity_at as_map add_at
fields_agree s = (
  record { item = s.cleaning_items; number = refl; listed = refl; added = λ d. refl },
  (
    record { item = s.soap; number = refl; listed = refl; added = λ d. refl },
    (
      record { item = s.bathroom_amenities; number = refl; listed = refl; added = λ d. refl },
      (
        record { item = s.aroma_candles; number = refl; listed = refl; added = λ d. refl },
        (
          record { item = s.water_bottle; number = refl; listed = refl; added = λ d. refl },
          (
            record { item = s.wine_bottle; number = refl; listed = refl; added = λ d. refl },
            (
              record { item = s.tea_bags; number = refl; listed = refl; added = λ d. refl },
              (
                record { item = s.sweets; number = refl; listed = refl; added = λ d. refl },
                (record { item = s.chips; number = refl; listed = refl; added = λ d. refl }, tt),
              ),
            ),
          ),
        ),
      ),
    ),
  ),
)

-- The field that the switch names is the number that `AsMap` shows.
pub Agrees-field :
    (item_name path : String) (s : Stock)
    → stock_item_quantity_field item_name ≡ ok path
    → Agrees s item_name path
Agrees-field item_name path s = field_entries (Agrees s) item_name path (fields_agree s)
