-- ===== src/App/Housekeeper/Tests.antt =====
-- A housekeeper over the sample database.
use kenshu_elaris_project_st.Base.{
  pos, neg, ◌+ℤ◌, ◌≡◌, refl, ◌⊎◌, some, [], ◌∷◌, is_space, trim_space, arith,
}
use kenshu_elaris_project_st.Domain.Errors.{stock_insufficient_quantity, as_stock_insufficient}
use kenshu_elaris_project_st.Domain.Documents.{CleaningRequest, quantity_at, add_at, as_map}
use kenshu_elaris_project_st.Validation.{
  validate_error, not_blank, positive_value, valid_cleaning_status,
}
use kenshu_elaris_project_st.Mdb.StockRepo.{
  consume_item, restock_item, stock_item_quantity_field, stock_document_exists,
}
use kenshu_elaris_project_st.Mdb.CottageRepo
use kenshu_elaris_project_st.App.World.{World, info, failure, problem}
use kenshu_elaris_project_st.App.Stocker.{service_immediate_restock}
use kenshu_elaris_project_st.App.Housekeeper.{
  Housekeeper, work, action_consume_item_retry, action, action_laundry, update_cleaning_status,
}
use kenshu_elaris_project_st.App.Housekeeper.Laundry.{work-washes}
use kenshu_elaris_project_st.App.Housekeeper.Retry.{Elapsed, restock_line}
use kenshu_elaris_project_st.App.Housekeeper.Served.{Served, Outrun, Stocked, consume_retry-Served}
use kenshu_elaris_project_st.App.Housekeeper.Status.{Reaches, work-StatusAfter}
use kenshu_elaris_project_st.Sample.{Database}
use kenshu_elaris_project_st.Sample.Stocks.{stocks}
use kenshu_elaris_project_st.Sample.Shop.{
  shelf, world, housekeeper, shop-contract, restocker-contract, cottages-contract,
  housekeeper-KeepsStatus,
}

program : Unit {0}
unfolding consume_item restock_item CottageRepo.update_cleaning_status stock_item_quantity_field
    stock_document_exists validate_error not_blank positive_value valid_cleaning_status trim_space
    is_space quantity_at add_at as_map neg ◌+ℤ◌ as_stock_insufficient work action_consume_item_retry
    action action_laundry update_cleaning_status service_immediate_restock
program = tt

abbrev daily : CleaningRequest
daily = record { room_name = "A"; request_type = "DAILY_CLEANING" }

daily_log :
    (work housekeeper daily world).1.log
    ≡ info "housekeeper started to workFn on cleaning request"
      ∷ info "trash taken out"
      ∷ info "bed arranged"
      ∷ restock_line
      ∷ info "bathroom cleaned"
      ∷ info "towels changed"
      ∷ info "vacuum cleaned"
      ∷ info "housekeeper finished to workFn on cleaning request"
      ∷ []
unfolding program
daily_log = refl

daily_status :
    cottages-contract.status (work housekeeper daily world).1.ext "A" ≡ some "daily_cleaned"
unfolding program
daily_status = refl

unknown_log :
    (work housekeeper (record { room_name = "A"; request_type = "7" }) world).1.log
    ≡ info "housekeeper started to workFn on cleaning request"
      ∷ problem "unknown cleaning request"
      ∷ info "housekeeper finished to workFn on cleaning request"
      ∷ []
unfolding program
unknown_log = refl

work-washes_example :
    (work housekeeper daily world).1.washes ≡ record { room_name = "A"; item = "towels" } ∷ []
work-washes_example = work-washes housekeeper daily world

work-StatusAfter_example :
    Reaches housekeeper cottages-contract "A"
      (some "daily_cleaned")
      (some "fully_cleaned")
      (work housekeeper daily world).1
work-StatusAfter_example =
    work-StatusAfter housekeeper cottages-contract daily world (housekeeper-KeepsStatus "A")

abbrev after_need : World Database
after_need =
    (action_consume_item_retry housekeeper "bathroom cleaned" "cleaningItem" (pos 5) world).1

need_log : after_need.log ≡ restock_line ∷ info "bathroom cleaned" ∷ []
unfolding program
need_log = refl

shelf-Stocked : Stocked "cleaningItem" (some shelf)
unfolding as_map
shelf-Stocked = record {
  document = shelf;
  is = refl;
  entry = shelf.cleaning_items;
  listed = refl;
  nonneg = omega arith;
}

-- Another housekeeper who needs 50 in every pause.
abbrev with_rival : Housekeeper Database
with_rival = record housekeeper {
  meanwhile = λ x. (consume_item stocks "cleaningItem" (pos 50) x).1;
}

outrun_log :
    (action_consume_item_retry with_rival "bathroom cleaned" "cleaningItem" (pos 5) world).1.log
    ≡ restock_line
      ∷ failure "failed to consume item after restock"
          (stock_insufficient_quantity "cleaningItem" (pos 5))
      ∷ []
unfolding program
outrun_log = refl

consume_retry-Served_example :
    Served
      (Elapsed shop-contract.stock housekeeper.meanwhile)
      "cleaningItem"
      (pos 5)
      (some shelf)
      after_need.ext.stock
    ⊎ Outrun
        (Elapsed shop-contract.stock housekeeper.meanwhile)
        "cleaningItem"
        (pos 5)
        (some shelf)
        after_need.ext.stock
consume_retry-Served_example =
    consume_retry-Served housekeeper shop-contract restocker-contract "bathroom cleaned"
      "cleaningItem" (pos 5) world (restock_line ∷ info "bathroom cleaned" ∷ []) (omega arith)
      (omega arith) (λ x stocked. stocked) shelf-Stocked need_log tt
