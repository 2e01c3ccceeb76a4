-- ===== src/Engine.antt =====
-- engine: the reference matching model.
pub mod Book
