-- ===== src/Amqp/Reactor.antt =====
-- The reactor runtime and its wire protocol (src/amqp/reactor).
pub mod Registry
pub mod Protocol
pub mod Runtime
pub mod Handlers
pub mod Serve
