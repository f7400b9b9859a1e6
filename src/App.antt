-- ===== src/App.antt =====
-- internal/app: the employees and what coordinates them.
pub mod World
pub mod Employee
pub mod Stocker
pub mod Housekeeper
pub mod Registry
pub mod Delivery
pub mod Unmarshal
pub mod TimeEvents
pub mod Manager
pub mod Launderer
pub mod Services
pub mod Flow
pub mod System
mod Tests
