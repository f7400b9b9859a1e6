-- ===== src/App/Stocker/Tests.antt =====
-- A stocker over the sample database.
use kenshu_elaris_project_st.Base.{pos, neg, ◌+ℤ◌, ◌≡◌, refl, some, [], ◌∷◌, is_space, trim_space}
use kenshu_elaris_project_st.Domain.Documents.{RestockRequest, quantity_at, add_at, as_map}
use kenshu_elaris_project_st.Validation.{validate_error, not_blank, positive_value}
use kenshu_elaris_project_st.Mdb.StockRepo.{get_stock, restock_item, stock_item_quantity_field}
use kenshu_elaris_project_st.App.World.{info, warning}
use kenshu_elaris_project_st.App.Stocker.{work}
use kenshu_elaris_project_st.App.Stocker.Laws.{work-ext}
use kenshu_elaris_project_st.Sample.Shop.{shelf, database, world, stocker}

program : Unit {0}
unfolding restock_item get_stock stock_item_quantity_field validate_error not_blank positive_value
    trim_space is_space quantity_at add_at as_map neg ◌+ℤ◌ work
program = tt

-- Aroma candles stand at the minimum, and no stock lists towels.
abbrev request : RestockRequest
request = record { items_name = "aromaCandle" ∷ "sweets" ∷ "towels" ∷ [] }

request_log :
    (work stocker request world).1.log
    ≡ info "stocker started to workFn on restock request"
      ∷ info "item already has enough stock"
      ∷ info "item restocked"
      ∷ warning "requested item not found in stock snapshot"
      ∷ info "stocker finished to workFn on restock request"
      ∷ []
unfolding program
request_log = refl

work-ext_example :
    (work stocker request world).1.ext
    ≡ record database { stock = some (add_at "sweets.quantity" (pos 50) shelf) }
unfolding restock_item get_stock stock_item_quantity_field validate_error not_blank positive_value
    trim_space is_space quantity_at add_at as_map
work-ext_example = work-ext stocker request world
