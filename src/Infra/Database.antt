-- ===== src/Infra/Database.antt =====
-- internal/infra/init.go: the repositories that the services get.
use kenshu_elaris_project_st.Base.{String}
use kenshu_elaris_project_st.Domain.Errors.{Result, ok, err}
use kenshu_elaris_project_st.Domain.Documents.{Stock}
use kenshu_elaris_project_st.Config.{MongoConfig}
use kenshu_elaris_project_st.Port.{StockRepo, CottageRepo}
use kenshu_elaris_project_st.Mdb.Bson.{Document, Collection}
use kenshu_elaris_project_st.Mdb.Client.{Driver, Mdb, new_mongo_db}
use kenshu_elaris_project_st.Mdb.StockRepo.{stock_repo}
use kenshu_elaris_project_st.Mdb.CottageRepo.{cottage_repo}

-- The type `Mongo`. Its `ConnectionClose` is `close` of Mdb/Client.
pub record Mongo (D : Type 0) : Type 0 where
  pub connection : Mdb
  pub stocks : StockRepo D
  pub cottages : CottageRepo D

-- `collection` is the driver's `Database.Collection`, and `decode` its reading of a document.
module _ {D : Type 0} (driver : Driver D) (collection : (database name : String) → Collection D)
    (decode : Document → Result Stock) where
  repositories : Result Mdb → Result (Mongo D)
  repositories (err e) = err e
  repositories (ok m) = ok (record {
    connection = m;
    stocks = stock_repo (collection m.database "Stock") decode;
    cottages = cottage_repo (collection m.database "cottage");
  })

  -- `NewMongoDb` of the package.
  unfoldable pub open_repositories : MongoConfig → D → Result (Mongo D) × D
  unfolding repositories
  open_repositories config x = let (m, y) = new_mongo_db driver config x in (repositories m, y)
