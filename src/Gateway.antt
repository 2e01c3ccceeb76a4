-- ===== src/Gateway.antt =====
-- services/gateway: the process that admits orders.
pub mod Risk
pub mod Orders
