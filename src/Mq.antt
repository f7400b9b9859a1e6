-- ===== src/Mq.antt =====
-- internal/infra/mq: the connection to the broker, its channels, and what is done on them.
pub mod Amqp
pub mod Connection
pub mod Channel
pub mod Consumer
pub mod Producer
pub mod Port
mod Tests
