-- ===== src/Domain/Documents.antt =====
-- domain/documents and domain/request.go. A map with text keys is an association list, and a struct
-- of Mongo carries the paths that its `bson` tags give.
use kenshu_elaris_project_st.Base.{
  ℕ, ℤ, ◌+ℤ◌, String, Option, List, [], ◌∷◌, str_eq, lookup, if◌then◌else◌,
}

pub record CleaningRequest : Type 0 where
  pub room_name : String
  pub request_type : String

pub record WashRequest : Type 0 where
  pub room_name : String
  pub item : String

pub record RestockRequest : Type 0 where
  pub items_name : List String

abbrev pub status_prepared_for_guest : String
status_prepared_for_guest = "prepared_for_guest"

abbrev pub status_daily_cleaned : String
status_daily_cleaned = "daily_cleaned"

abbrev pub status_prepared_for_sleep : String
status_prepared_for_sleep = "prepared_for_sleep"

abbrev pub status_fully_cleaned : String
status_fully_cleaned = "fully_cleaned"

abbrev pub cleaning_item : String
cleaning_item = "cleaningItem"

abbrev pub soap : String
soap = "soap"

abbrev pub bathroom_amenities : String
bathroom_amenities = "bathroomAmenities"

abbrev pub aroma_candle : String
aroma_candle = "aromaCandle"

abbrev pub water_bottle : String
water_bottle = "waterBottle"

abbrev pub wine_bottle : String
wine_bottle = "wineBottle"

abbrev pub tea_bags : String
tea_bags = "teaBags"

abbrev pub sweets : String
sweets = "sweets"

abbrev pub chips : String
chips = "chips"

abbrev pub managed_stock_item_names : List String
managed_stock_item_names =
    cleaning_item ∷ soap ∷ bathroom_amenities ∷ aroma_candle ∷ water_bottle ∷ wine_bottle ∷ tea_bags
    ∷ sweets ∷ chips ∷ []

pub record StockItem : Type 0 where
  pub name : String
  pub quantity : ℤ

-- The document's `_id` is read by nothing.
pub record Stock : Type 0 where
  pub cleaning_items : StockItem
  pub soap : StockItem
  pub bathroom_amenities : StockItem
  pub aroma_candles : StockItem
  pub water_bottle : StockItem
  pub wine_bottle : StockItem
  pub tea_bags : StockItem
  pub sweets : StockItem
  pub chips : StockItem

unfoldable pub as_map : Stock → List (String × StockItem)
as_map s =
    (cleaning_item, s.cleaning_items)
    ∷ (soap, s.soap)
    ∷ (bathroom_amenities, s.bathroom_amenities)
    ∷ (aroma_candle, s.aroma_candles)
    ∷ (water_bottle, s.water_bottle)
    ∷ (wine_bottle, s.wine_bottle)
    ∷ (tea_bags, s.tea_bags)
    ∷ (sweets, s.sweets)
    ∷ (chips, s.chips)
    ∷ []

-- The number fields of the document under the paths of their `bson` tags.
unfoldable pub quantities : Stock → List (String × ℤ)
quantities s =
    ("cleaning_items.quantity", s.cleaning_items.quantity)
    ∷ ("soap.quantity", s.soap.quantity)
    ∷ ("bathroom_amenities.quantity", s.bathroom_amenities.quantity)
    ∷ ("aroma_candles.quantity", s.aroma_candles.quantity)
    ∷ ("water_bottle.quantity", s.water_bottle.quantity)
    ∷ ("wine_bottle.quantity", s.wine_bottle.quantity)
    ∷ ("tea_bags.quantity", s.tea_bags.quantity)
    ∷ ("sweets.quantity", s.sweets.quantity)
    ∷ ("chips.quantity", s.chips.quantity)
    ∷ []

unfoldable pub quantity_at : String → Stock → Option ℤ
unfolding quantities
quantity_at path s = lookup path (quantities s)

-- One field under an update of the field at `path`.
abbrev pub bump : String → ℤ → String → StockItem → StockItem
bump path d tag i = if str_eq tag path then record i { quantity = i.quantity +ℤ d } else i

-- The document with `d` added to the number at a path; a path of no field changes nothing.
unfoldable pub add_at : String → ℤ → Stock → Stock
add_at path d s = record {
  cleaning_items = bump path d "cleaning_items.quantity" s.cleaning_items;
  soap = bump path d "soap.quantity" s.soap;
  bathroom_amenities = bump path d "bathroom_amenities.quantity" s.bathroom_amenities;
  aroma_candles = bump path d "aroma_candles.quantity" s.aroma_candles;
  water_bottle = bump path d "water_bottle.quantity" s.water_bottle;
  wine_bottle = bump path d "wine_bottle.quantity" s.wine_bottle;
  tea_bags = bump path d "tea_bags.quantity" s.tea_bags;
  sweets = bump path d "sweets.quantity" s.sweets;
  chips = bump path d "chips.quantity" s.chips;
}

-- domain/documents/cottage.go. An identifier of MongoDB is its text, and a price of type float32 the
-- pattern of its bits.
pub record CottageDetails : Type 0 where
  pub description : String
  pub view : String
  pub furniture_description : String
  pub bathroom_description : String
  pub amenities_description : String

pub record Key : Type 0 where
  pub number : String
  pub holder : String

pub record Cottage : Type 0 where
  pub id : String
  pub name : String
  pub view : String
  pub details : CottageDetails
  pub photos : List String
  pub price_per_night : ℕ
  pub bookings : List String
  pub current_guest : String
  pub cleaning_status : String
  pub key : Key
