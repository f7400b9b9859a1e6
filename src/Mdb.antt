-- ===== src/Mdb.antt =====
-- internal/infra/mdb: the repositories over a MongoDB collection.
pub mod Bson
pub mod Client
pub mod StockView
pub mod StockRepo
pub mod CottageRepo
pub mod CottageView
mod Tests
