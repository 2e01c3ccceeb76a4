-- ===== src/Matcher/Records.antt =====
-- The records that the matcher reads and writes, of contracts/v1/generated/contracts.py: the fields
-- that it uses. A price and a quantity of an order may be anything, since the matcher tests them; a
-- symbol and a time, which are signed on the wire, are keys and echoes here, and natural numbers.
use quant_arena.Prelude.{ℕ}
use quant_arena.Prelude.Int.{ℤ}
use quant_arena.Contracts.{Record, RejectReason}

-- `Tif`
abbrev pub gtc : ℕ
gtc = 1

abbrev pub ioc : ℕ
ioc = 2

-- `CancelReason`
abbrev pub user_requested : ℕ
user_requested = 1

abbrev pub ioc_expired : ℕ
ioc_expired = 2

-- The fields of an inbound record that the matcher reads.
pub record SubmitOrder : Type 0 where
  pub timestamp_ns : ℕ
  pub client_order_id : ℕ
  pub user_id : ℕ
  pub price_ticks : ℤ
  pub qty : ℤ
  pub symbol_id : ℕ
  pub side : ℕ
  pub tif : ℕ

pub record CancelOrder : Type 0 where
  pub timestamp_ns : ℕ
  pub client_order_id : ℕ
  pub user_id : ℕ
  pub target_client_order_id : ℕ

pub record CreateAccount : Type 0 where
  pub timestamp_ns : ℕ
  pub client_order_id : ℕ
  pub user_id : ℕ

pub record CreditCash : Type 0 where
  pub timestamp_ns : ℕ
  pub client_order_id : ℕ
  pub user_id : ℕ
  pub amount_ticks : ℤ

-- Also what comes out, as `ReplayConfigured`.
pub record ConfigureReplay : Type 0 where
  pub timestamp_ns : ℕ
  pub client_order_id : ℕ
  pub real_seconds_per_simulated_minute : ℕ
  pub config_hash_hi : ℕ
  pub config_hash_lo : ℕ

pub data Inbound : Type 0 where
  submit_order : SubmitOrder → Inbound
  cancel_order : CancelOrder → Inbound
  create_account : CreateAccount → Inbound
  credit_cash : CreditCash → Inbound
  configure_replay : ConfigureReplay → Inbound
  other : Inbound

pub record OrderRejected : Type 0 where
  pub timestamp_ns : ℕ
  pub client_order_id : ℕ
  pub user_id : ℕ
  pub symbol_id : ℕ
  pub reason : RejectReason

-- What comes out: a record that the consumers fold, or one of the two that they ignore.
pub data Outbound : Type 0 where
  published : Record → Outbound
  order_rejected : OrderRejected → Outbound
  replay_configured : ConfigureReplay → Outbound
