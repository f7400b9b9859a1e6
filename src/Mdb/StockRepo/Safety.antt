-- ===== src/Mdb/StockRepo/Safety.antt =====
-- The stock under any calls of the repository.
use kenshu_elaris_project_st.Base.{List}
use kenshu_elaris_project_st.Domain.Errors.{Result}
use kenshu_elaris_project_st.Domain.Documents.{Stock}
use kenshu_elaris_project_st.Port.StockSafety.{NonNegative, Call, after_calls, calls-NonNegative}
use kenshu_elaris_project_st.Mdb.Bson.{Document, Collection}
use kenshu_elaris_project_st.Mdb.StockView.{StockView}
use kenshu_elaris_project_st.Mdb.StockRepo.{stock_repo}
use kenshu_elaris_project_st.Mdb.StockRepo.Read.{stock_repo-contract}

-- Over a collection with at most one stock document that follows the manual of MongoDB: if no item
-- starts with a quantity below zero, none has one after any calls of `GetStock`, `ConsumeItem` and
-- `RestockItem`, with any names and quantities, in any order, whatever errors come out of them.
pub stock_repo-NonNegative :
    {D : Type 0} {c : Collection D} {decode : Document → Result Stock} (w : StockView c decode)
    (calls : List Call) (x : D)
    → NonNegative (w.stock x)
    → NonNegative (w.stock (after_calls (stock_repo c decode) calls x))
stock_repo-NonNegative {c = c} {decode = decode} w =
    calls-NonNegative (stock_repo c decode) (stock_repo-contract w)
