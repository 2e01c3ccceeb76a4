-- ===== src/Fanout.antt =====
-- services/fanout: the process that derives market data from the outbound stream.
pub mod Book
pub mod Bars
pub mod Halt
pub mod State
pub mod Subscribers
