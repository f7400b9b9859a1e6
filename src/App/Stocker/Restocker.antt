-- ===== src/App/Stocker/Restocker.antt =====
-- The stocker as the one that restocks for the housekeepers and the launderers.
use kenshu_elaris_project_st.Base.{String, some}
use kenshu_elaris_project_st.Port.StockContract.{StockContract, Restocked}
use kenshu_elaris_project_st.App.Stocker.{
  stock_replenishment_quantity, StockerState, immediate_restock, service_immediate_restock,
}

-- A service that has its stocker restocks 50 of the named item, with the outcomes that the contract
-- of the stock repository allows.
pub service_restock-Restocked :
    {D : Type 0} (s : StockerState D) (k : StockContract s.stock_repo) (item : String) (x : D)
    → let (e, y) =
        service_immediate_restock (some (record { immediate_restocker = some s })) item x in
      Restocked item stock_replenishment_quantity (k.stock x) e (k.stock y)
unfolding service_immediate_restock immediate_restock
service_restock-Restocked s k item x = k.restock_lem item stock_replenishment_quantity x
