-- ===== src/App/Stocker.antt =====
-- internal/app/stocker_service.go but for its constructor.
pub mod Laws
pub mod Restocker
mod Tests
use kenshu_elaris_project_st.Base.{
  ℤ, pos, leb_ℤ, String, Option, none, some, List, [], ◌∷◌, lookup, if◌then◌else◌,
}
use kenshu_elaris_project_st.Domain.Errors.{Error, Result, ok, err}
use kenshu_elaris_project_st.Domain.Documents.{StockItem, RestockRequest}
use kenshu_elaris_project_st.Port.{StockRepo}
use kenshu_elaris_project_st.App.World.{
  info, warning, failure, World, Action, ◌>>=◌, ◌>>◌, skip, pure, call, call_behind, write,
}

abbrev pub minimum_stock_quantity : ℤ
minimum_stock_quantity = pos 10

abbrev pub stock_replenishment_quantity : ℤ
stock_replenishment_quantity = pos 50

-- The type `stocker`, named apart from the variables of that name. `meanwhile` is no field of it: it is
-- what the other goroutines have done to the outside by the next call of the loop of `work`.
pub record StockerState (D : Type 0) : Type 0 where
  pub stock_repo : StockRepo D
  pub meanwhile : D → D

module _ {D : Type 0} (s : StockerState D) where
  -- What the loop writes after the call of `RestockItem`.
  restock_answer : Option Error → Action D (Unit {0})
  restock_answer (some e) = write (failure "failed to restock item" e)
  restock_answer none = write (info "item restocked")

  -- The rest of the loop's body, for what the snapshot has under the name.
  restock_found : String → Option StockItem → Action D (Unit {0})
  unfolding restock_answer
  restock_found item_name none = write (warning "requested item not found in stock snapshot")
  restock_found item_name (some item) =
      if leb_ℤ minimum_stock_quantity item.quantity
      then write (info "item already has enough stock")
      else (call_behind s.meanwhile
            (s.stock_repo.restock_item item_name stock_replenishment_quantity)
          >>= restock_answer)

  restock_each : List (String × StockItem) → List String → Action D (Unit {0})
  unfolding restock_found
  restock_each stock [] = skip
  restock_each stock (item_name ∷ names) = do
    restock_found item_name (lookup item_name stock)
    restock_each stock names

  restock_from : List String → Result (List (String × StockItem)) → Action D (Unit {0})
  unfolding restock_each
  restock_from names (err e) = write (failure "failed to get stock snapshot" e)
  restock_from names (ok stock) = do
    restock_each stock names
    write (info "stocker finished to workFn on restock request")

  restock_some : List String → Action D (Unit {0})
  unfolding restock_from
  restock_some [] = write (info "no items requested for restock")
  restock_some (name ∷ names) = do
    stock ← call s.stock_repo.get_stock
    restock_from (name ∷ names) stock

  unfoldable pub work : RestockRequest → Action D (Unit {0})
  unfolding restock_some
  work request = do
    write (info "stocker started to workFn on restock request")
    restock_some request.items_name

  unfoldable pub immediate_restock : String → D → Option Error × D
  immediate_restock item = s.stock_repo.restock_item item stock_replenishment_quantity

-- The pointers of `StockerService` may be nil: `ImmediateRestock` then does nothing.
pub record StockerService (D : Type 0) : Type 0 where
  pub immediate_restocker : Option (StockerState D)

unfoldable pub service_immediate_restock :
    {D : Type 0} → Option (StockerService D) → String → D → Option Error × D
unfolding immediate_restock
service_immediate_restock none item x = (none, x)
service_immediate_restock (some s) item x = elim s.immediate_restocker [
  | none ↦ (none, x)
  | some stocker ↦ immediate_restock stocker item x
]
