-- ===== src/Mdb/Tests.antt =====
-- The repositories over the sample database.
use kenshu_elaris_project_st.Base.{
  pos, negsuc, neg, ◌+ℤ◌, ◌≡◌, refl, none, some, [], ◌∷◌, is_space, trim_space, lookup-Entries,
  ◌≤ℤ◌, arith,
}
use kenshu_elaris_project_st.Domain.Errors.{
  plain, stock_insufficient_quantity, stock_item_quantity_not_updated, cottage_does_not_exist,
  cottage_cleaning_status_not_updated,
}
use kenshu_elaris_project_st.Domain.Documents.{as_map, quantity_at, add_at}
use kenshu_elaris_project_st.Validation.{
  validate_error, not_blank, positive_value, valid_cleaning_status,
}
use kenshu_elaris_project_st.Port.StockContract.{Consumed, Restocked, Read}
use kenshu_elaris_project_st.Port.CottageContract.{Updated}
use kenshu_elaris_project_st.Mdb.StockRepo.{
  get_stock, consume_item, restock_item, stock_item_quantity_field, stock_document_exists,
}
use kenshu_elaris_project_st.Mdb.StockRepo.Consume.{consume_item-Consumed}
use kenshu_elaris_project_st.Mdb.StockRepo.Restock.{restock_item-Restocked}
use kenshu_elaris_project_st.Mdb.StockRepo.Read.{get_stock-Read}
use kenshu_elaris_project_st.Mdb.CottageRepo.{update_cleaning_status}
use kenshu_elaris_project_st.Mdb.CottageRepo.Laws.{update_cleaning_status-Updated}
use kenshu_elaris_project_st.Sample.Stocks.{stocks, decode, stocks-view}
use kenshu_elaris_project_st.Sample.Cottages.{cottages, cottages-view}
use kenshu_elaris_project_st.Sample.Shop.{shelf, database}
use kenshu_elaris_project_st.Port.StockSafety.{NonNegative, gets, consumes, restocks, after_calls}
use kenshu_elaris_project_st.Mdb.StockRepo.{stock_repo}
use kenshu_elaris_project_st.Mdb.StockRepo.Safety.{stock_repo-NonNegative}
use kenshu_elaris_project_st.Mdb.Client.{Driver, new_mongo_db}
use kenshu_elaris_project_st.Mdb.Client.Leak.{Tells, new_mongo_db-Tells}
use kenshu_elaris_project_st.Mdb.Client.Laws.{Balanced, new_mongo_db-Balanced}
use kenshu_elaris_project_st.Sample.Net.{Net, driver, mongo, net, clients_counted}

program : Unit {0}
unfolding consume_item restock_item update_cleaning_status stock_item_quantity_field
    stock_document_exists validate_error not_blank positive_value valid_cleaning_status trim_space
    is_space quantity_at add_at neg ◌+ℤ◌
program = tt

consume_runs :
    (consume_item stocks "soap" (pos 10) database
      ≡ (none, record database { stock = some (add_at "soap.quantity" (negsuc 9) shelf) }))
    × (consume_item stocks "cleaningItem" (pos 5) database
        ≡ (some (stock_insufficient_quantity "cleaningItem" (pos 5)), database))
    × (consume_item stocks "towels" (pos 5) database
        ≡ (some (stock_item_quantity_not_updated "towels"), database))
unfolding program
consume_runs = (refl, refl, refl)

status_runs :
    ((update_cleaning_status cottages "A" "daily_cleaned" database).0 ≡ none)
    × (update_cleaning_status cottages "B" "daily_cleaned" database
        ≡ (some (cottage_cleaning_status_not_updated "B"), database))
    × (update_cleaning_status cottages "C" "daily_cleaned" database
        ≡ (some (cottage_does_not_exist "C"), database))
unfolding program
status_runs = (refl, refl, refl)

consume_item-Consumed_example :
    let (e, y) = consume_item stocks "soap" (pos 10) database in
    Consumed "soap" (pos 10) (some shelf) e y.stock
consume_item-Consumed_example = consume_item-Consumed stocks-view "soap" (pos 10) database

get_stock-Read_example :
    let (m, y) = get_stock stocks decode database in Read (some shelf) m y.stock
get_stock-Read_example = get_stock-Read stocks-view database

restock_item-Restocked_example :
    let (e, y) = restock_item stocks "soap" (pos 50) database in
    Restocked "soap" (pos 50) (some shelf) e y.stock
restock_item-Restocked_example = restock_item-Restocked stocks-view "soap" (pos 50) database

update_cleaning_status-Updated_example :
    let (e, y) = update_cleaning_status cottages "A" "daily_cleaned" database in
    Updated "A" "daily_cleaned" (cottages-view.status database) e (cottages-view.status y)
update_cleaning_status-Updated_example =
    update_cleaning_status-Updated cottages-view "A" "daily_cleaned" database

shelf-NonNegative : NonNegative (some shelf)
unfolding as_map
shelf-NonNegative name stored listed =
    lookup-Entries (λ n i. pos 0 ≤ℤ i.quantity) name (as_map shelf)
      (
        omega arith,
        (
          omega arith,
          (
            omega arith,
            (
              omega arith,
              (omega arith, (omega arith, (omega arith, (omega arith, (omega arith, tt))))),
            ),
          ),
        ),
      )
      listed

stock_repo-NonNegative_example :
    NonNegative
      (after_calls
        (stock_repo stocks decode)
        (consumes "soap" (pos 30) ∷ gets ∷ consumes "soap" (pos 30) ∷ restocks "chips" (pos 5) ∷ [])
        database).stock
stock_repo-NonNegative_example =
    stock_repo-NonNegative stocks-view
      (consumes "soap" (pos 30) ∷ gets ∷ consumes "soap" (pos 30) ∷ restocks "chips" (pos 5) ∷ [])
      database shelf-NonNegative

new_mongo_db-Balanced_example :
    Balanced driver clients_counted 0 (new_mongo_db driver mongo (net 0))
new_mongo_db-Balanced_example = new_mongo_db-Balanced driver clients_counted mongo (net 0)

-- A database whose client is made, and then does not answer.
abbrev silent : Driver Net
silent = record driver { ping = λ client x. (some (plain "no answer"), x) }

new_mongo_db-Tells_example : Tells silent (λ n. "n") "pass" (new_mongo_db silent mongo (net 0)).0
new_mongo_db-Tells_example =
    new_mongo_db-Tells silent (λ n. "n") mongo 3 (plain "no answer") (net 0) refl refl refl
