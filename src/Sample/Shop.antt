-- ===== src/Sample/Shop.antt =====
-- A stock, two cottages and the employees of the program over the sample database.
use kenshu_elaris_project_st.Base.{ℤ, pos, String, ◌≡◌, refl, ap, lookup, some, arith, [], ◌∷◌}
use kenshu_elaris_project_st.Domain.Errors.{ok}
use kenshu_elaris_project_st.Domain.Documents.{Stock, StockItem}
use kenshu_elaris_project_st.Port.StockContract.{StockContract}
use kenshu_elaris_project_st.Port.CottageContract.{CottageContract}
use kenshu_elaris_project_st.Mdb.StockRepo.{stock_repo, consume_item, restock_item}
use kenshu_elaris_project_st.Mdb.StockRepo.Read.{stock_repo-contract}
use kenshu_elaris_project_st.Mdb.CottageRepo.{cottage_repo}
use kenshu_elaris_project_st.Mdb.CottageRepo.Laws.{cottage_repo-contract}
use kenshu_elaris_project_st.App.World.{World}
use kenshu_elaris_project_st.App.Stocker.{
  StockerState, immediate_restock, service_immediate_restock,
}
use kenshu_elaris_project_st.App.Stocker.Restocker.{service_restock-Restocked}
use kenshu_elaris_project_st.App.Housekeeper.{Housekeeper}
use kenshu_elaris_project_st.App.Housekeeper.Retry.{RestockerContract}
use kenshu_elaris_project_st.App.Housekeeper.Status.{KeepsStatus}
use kenshu_elaris_project_st.Sample.{Database}
use kenshu_elaris_project_st.Sample.Stocks.{stocks, decode, stocks-view}
use kenshu_elaris_project_st.Sample.Cottages.{cottages, cottages-view}

abbrev pub item : String → ℤ → StockItem
item name quantity = record { name = name; quantity = quantity }

-- Three cleaning items are fewer than a daily cleaning needs.
abbrev pub shelf : Stock
shelf = record {
  cleaning_items = item "cleaningItem" (pos 3);
  soap = item "soap" (pos 40);
  bathroom_amenities = item "bathroomAmenities" (pos 9);
  aroma_candles = item "aromaCandle" (pos 10);
  water_bottle = item "waterBottle" (pos 0);
  wine_bottle = item "wineBottle" (pos 2);
  tea_bags = item "teaBags" (pos 100);
  sweets = item "sweets" (pos 1);
  chips = item "chips" (pos 1);
}

abbrev pub database : Database
database = record {
  stock = some shelf;
  cottages = ("A", "fully_cleaned") ∷ ("B", "daily_cleaned") ∷ [];
}

abbrev pub world : World Database
world = record {
  ext = database;
  cleanings = [];
  washes = [];
  restocks = [];
  settled = [];
  log = [];
}

abbrev pub stocker : StockerState Database
stocker = record { stock_repo = stock_repo stocks decode; meanwhile = λ x. x }

abbrev pub housekeeper : Housekeeper Database
housekeeper = record {
  clock = record { now = λ x. (ok (pos 0), x) };
  cottage_repo = cottage_repo cottages;
  stock_repo = stock_repo stocks decode;
  stoker = record {
    immediate_restock =
        service_immediate_restock (some (record { immediate_restocker = some stocker }));
  };
  meanwhile = λ x. x;
}

abbrev pub shop-contract : StockContract housekeeper.stock_repo
shop-contract = stock_repo-contract stocks-view

pub restocker-contract : RestockerContract shop-contract.stock housekeeper.stoker
restocker-contract = record { restock_lem = service_restock-Restocked stocker shop-contract }

abbrev pub cottages-contract : CottageContract housekeeper.cottage_repo
cottages-contract = cottage_repo-contract cottages-view

consume-cottages :
    (name : String) (quantity : ℤ) (x : Database)
    → (consume_item stocks name quantity x).1.cottages ≡ x.cottages
unfolding consume_item
consume-cottages name quantity x = ground arith

restock-cottages :
    (name : String) (quantity : ℤ) (x : Database)
    → (restock_item stocks name quantity x).1.cottages ≡ x.cottages
unfolding restock_item
restock-cottages name quantity x = ground arith

pub housekeeper-KeepsStatus :
    (room : String) → KeepsStatus housekeeper cottages-contract.status room
unfolding service_immediate_restock immediate_restock
housekeeper-KeepsStatus room = record {
  now_keeps = λ x. refl;
  consume_keeps = λ name quantity x. ap (lookup room) (consume-cottages name quantity x);
  restock_keeps = λ name x. ap (lookup room) (restock-cottages name (pos 50) x);
  others_keep = λ x. refl;
}
