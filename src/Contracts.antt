-- ===== src/Contracts.antt =====
-- The outbound records of contracts/v1/generated/contracts.py, as the consumers of the stream see
-- them. The header fields that no consumer reads (schema_version, record_type, seq_ms, seq_ord)
-- are left out. Prices and quantities are natural numbers: the gateway admits positive ones only.
-- Cash amounts are signed.
pub mod Side
use quant_arena.Prelude.{ℕ, String}
use quant_arena.Prelude.Int.{ℤ}

pub record OrderAccepted : Type 0 where
  pub timestamp_ns : ℕ
  pub order_id : ℕ
  pub client_order_id : ℕ
  pub user_id : ℕ
  pub price_ticks : ℕ
  pub qty : ℕ
  pub symbol_id : ℕ
  pub side : ℕ
  pub tif : ℕ

pub record Fill : Type 0 where
  pub timestamp_ns : ℕ
  pub maker_order_id : ℕ
  pub taker_order_id : ℕ
  pub maker_user_id : ℕ
  pub taker_user_id : ℕ
  pub price_ticks : ℕ
  pub qty : ℕ
  pub symbol_id : ℕ
  pub aggressor_side : ℕ

pub record OrderCancelled : Type 0 where
  pub timestamp_ns : ℕ
  pub order_id : ℕ
  pub client_order_id : ℕ
  pub user_id : ℕ
  pub remaining_qty : ℕ
  pub symbol_id : ℕ
  pub reason : ℕ

pub record AccountCreated : Type 0 where
  pub timestamp_ns : ℕ
  pub client_order_id : ℕ
  pub user_id : ℕ
  pub initial_cash_ticks : ℤ

pub record CashCredited : Type 0 where
  pub timestamp_ns : ℕ
  pub client_order_id : ℕ
  pub user_id : ℕ
  pub amount_ticks : ℤ

-- A record of the outbound stream. `ignored` is any type that the ledger, the risk state and the
-- market data have no branch for, such as `OrderRejected`.
pub data Record : Type 0 where
  account_created : AccountCreated → Record
  cash_credited : CashCredited → Record
  order_accepted : OrderAccepted → Record
  order_cancelled : OrderCancelled → Record
  fill : Fill → Record
  ignored : Record

-- What `read_records` returns: a record with the id that the stream gave it.
pub record StreamItem : Type 0 where
  pub stream_id : String
  pub body : Record

pub data RejectReason : Type 0 where
  unknown_symbol invalid_price invalid_quantity invalid_side invalid_tif : RejectReason
  insufficient_cash insufficient_position unknown_order not_order_owner : RejectReason
  duplicate_client_order_id exchange_halted account_not_found account_already_exists : RejectReason
