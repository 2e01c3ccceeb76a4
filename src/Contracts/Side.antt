-- ===== src/Contracts/Side.antt =====
-- `Side` of contracts/v1/generated/contracts.py.
use quant_arena.Prelude.{ℕ}

abbrev pub buy : ℕ
buy = 1

abbrev pub sell : ℕ
sell = 2
