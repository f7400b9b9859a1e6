-- ===== src/Mdb/StockRepo/Read.antt =====
-- `GetStock` keeps its promise, and with it the repository fills the contract of the port.
use kenshu_elaris_project_st.Base.{◌≡◌, refl, Option}
use kenshu_elaris_project_st.Domain.Errors.{Result}
use kenshu_elaris_project_st.Domain.Documents.{Stock}
use kenshu_elaris_project_st.Mdb.Bson.{
  Document, nil, FindResult, found, no_documents, find_failed, Collection,
}
use kenshu_elaris_project_st.Mdb.StockView.{StockView, Finds}
use kenshu_elaris_project_st.Mdb.StockRepo.{stock_map, get_stock, stock_repo}
use kenshu_elaris_project_st.Port.StockContract.{Read, StockContract}
use kenshu_elaris_project_st.Mdb.StockRepo.Consume.{consume_item-Consumed}
use kenshu_elaris_project_st.Mdb.StockRepo.Restock.{restock_item-Restocked}

module _ {D : Type 0} {c : Collection D} {decode : Document → Result Stock}
    (w : StockView c decode) where
  open w use {stock, find_reads, find_finds}

  stock_map-Read :
      (before after : Option Stock) (r : FindResult)
      → Finds decode before r
      → after ≡ before
      → Read before (stock_map decode r) after
  unfolding stock_map
  stock_map-Read before after (found d) (s, is, was) same = rw is (s, was, refl, same)
  stock_map-Read before after no_documents f same = (f, same)
  stock_map-Read before after (find_failed e) f same = same

  -- Over a collection with at most one stock document that follows the manual of MongoDB, `GetStock`
  -- leaves the stock alone; it answers a map only if there is a document, and then the items of that
  -- document under the names of the managed items; and "does not exist" only if there is none.
  pub get_stock-Read : (x : D) → let (m, y) = get_stock c decode x in Read (stock x) m (stock y)
  unfolding get_stock
  get_stock-Read x =
      stock_map-Read (stock x) (stock (c.find_one nil x).1) (c.find_one nil x).0 (find_finds x)
        (find_reads x)

  -- The repository over such a collection fills the contract of the port.
  abbrev pub stock_repo-contract : StockContract (stock_repo c decode)
  stock_repo-contract = record {
    stock = stock;
    get_lem = get_stock-Read;
    consume_lem = consume_item-Consumed w;
    restock_lem = restock_item-Restocked w;
  }
