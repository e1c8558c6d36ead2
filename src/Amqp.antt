-- ===== src/Amqp.antt =====
-- The AMQP consumers (src/amqp).
pub mod Platform
pub mod Hmac
pub mod Nonce
pub mod Consumer
pub mod Reactor
pub mod Samples
