-- ===== src/Sample.antt =====
-- A small database in memory that follows the manual of MongoDB on the calls of the repositories,
-- for the tests and the witnesses. It models no code of the program.
pub mod Stocks
pub mod Cottages
pub mod Shop
pub mod Net
pub mod Staff
use kenshu_elaris_project_st.Base.{String, Option, List}
use kenshu_elaris_project_st.Domain.Documents.{Stock}

pub record Database : Type 0 where
  pub stock : Option Stock
  pub cottages : List (String × String)
