-- ===== src/Port.antt =====
-- internal/port: the interfaces between the services and what stands outside, over the state `D` of
-- that outside (the database, the clock service, the broker). Contexts are left out.
pub mod StockContract
pub mod StockLaws
pub mod StockSafety
pub mod CottageContract
use kenshu_elaris_project_st.Base.{ℤ, String, Option, List}
use kenshu_elaris_project_st.Domain.Errors.{Error, Result}
use kenshu_elaris_project_st.Domain.Documents.{StockItem}

-- `Now` answers an instant, as nanoseconds since the epoch. `Close` is called at the shutdown alone.
pub record Clock (D : Type 0) : Type 0 where
  pub now : D → Result ℤ × D

pub record CottageRepo (D : Type 0) : Type 0 where
  pub update_cleaning_status : (cottage_name cleaning_status : String) → D → Option Error × D

pub record StockRepo (D : Type 0) : Type 0 where
  pub get_stock : D → Result (List (String × StockItem)) × D
  pub consume_item : (item_name : String) (quantity : ℤ) → D → Option Error × D
  pub restock_item : (item_name : String) (quantity : ℤ) → D → Option Error × D
