-- ===== src/Wire/Any.antt =====
-- `unpack_any` of contracts/v1/generated/contracts.py, and the table that it dispatches on.
pub mod Roundtrip
mod Tests
use quant_arena.Prelude.{
  ℕ, Bool, ◌&&◌, Option, none, some, List, ◌==◌, nat_eq, if◌then◌else◌, Result, ok, err,
}
use quant_arena.Prelude.Int.{ℤ, pos, pos_part, neg_part}
use quant_arena.Wire.Struct.{unpack_from, u16}
use quant_arena.Wire.SubmitOrder
use quant_arena.Wire.CancelOrder
use quant_arena.Wire.CreateAccount
use quant_arena.Wire.CreditCash
use quant_arena.Wire.ConfigureReplay
use quant_arena.Wire.OrderAccepted
use quant_arena.Wire.OrderRejected
use quant_arena.Wire.Fill
use quant_arena.Wire.OrderCancelled
use quant_arena.Wire.BookChanged
use quant_arena.Wire.AccountCreated
use quant_arena.Wire.CashCredited
use quant_arena.Wire.ReplayConfigured
use quant_arena.Wire.SubmitOrder.{SubmitOrder}
use quant_arena.Wire.CancelOrder.{CancelOrder}
use quant_arena.Wire.CreateAccount.{CreateAccount}
use quant_arena.Wire.CreditCash.{CreditCash}
use quant_arena.Wire.ConfigureReplay.{ConfigureReplay}
use quant_arena.Wire.OrderAccepted.{OrderAccepted}
use quant_arena.Wire.OrderRejected.{OrderRejected}
use quant_arena.Wire.Fill.{Fill}
use quant_arena.Wire.OrderCancelled.{OrderCancelled}
use quant_arena.Wire.BookChanged.{BookChanged}
use quant_arena.Wire.AccountCreated.{AccountCreated}
use quant_arena.Wire.CashCredited.{CashCredited}
use quant_arena.Wire.ReplayConfigured.{ReplayConfigured}

-- A record of any class.
pub data AnyRecord : Type 0 where
  submit_order : SubmitOrder → AnyRecord
  cancel_order : CancelOrder → AnyRecord
  create_account : CreateAccount → AnyRecord
  credit_cash : CreditCash → AnyRecord
  configure_replay : ConfigureReplay → AnyRecord
  order_accepted : OrderAccepted → AnyRecord
  order_rejected : OrderRejected → AnyRecord
  fill : Fill → AnyRecord
  order_cancelled : OrderCancelled → AnyRecord
  book_changed : BookChanged → AnyRecord
  account_created : AccountCreated → AnyRecord
  cash_credited : CashCredited → AnyRecord
  replay_configured : ReplayConfigured → AnyRecord

-- The classes.
pub data Kind : Type 0 where
  submit_order_kind : Kind
  cancel_order_kind : Kind
  create_account_kind : Kind
  credit_cash_kind : Kind
  configure_replay_kind : Kind
  order_accepted_kind : Kind
  order_rejected_kind : Kind
  fill_kind : Kind
  order_cancelled_kind : Kind
  book_changed_kind : Kind
  account_created_kind : Kind
  cash_credited_kind : Kind
  replay_configured_kind : Kind

abbrev pub same : ℤ → ℕ → Bool
same v n = pos_part v == n && neg_part v == 0

-- `RECORD_BY_TYPE.get`
unfoldable pub record_by_type : ℤ → Option Kind
record_by_type t =
    if same t 1
    then some submit_order_kind
    else if same t 2
    then some cancel_order_kind
    else if same t 3
    then some create_account_kind
    else if same t 4
    then some credit_cash_kind
    else if same t 5
    then some configure_replay_kind
    else if same t 10
    then some order_accepted_kind
    else if same t 11
    then some order_rejected_kind
    else if same t 12
    then some fill_kind
    else if same t 13
    then some order_cancelled_kind
    else if same t 14
    then some book_changed_kind
    else if same t 15
    then some account_created_kind
    else if same t 16
    then some cash_credited_kind
    else if same t 17
    then some replay_configured_kind
    else none

-- An instance of the class, if its `unpack` did not raise.
abbrev pub wrap : {R : Type 0} → (R → AnyRecord) → Option R → Option AnyRecord
wrap con none = none
wrap con (some r) = some (con r)

-- `cls.unpack(data)`
unfoldable pub unpack_kind : Kind → List ℕ → Option AnyRecord
unpack_kind submit_order_kind bs = wrap submit_order (SubmitOrder.unpack bs)
unpack_kind cancel_order_kind bs = wrap cancel_order (CancelOrder.unpack bs)
unpack_kind create_account_kind bs = wrap create_account (CreateAccount.unpack bs)
unpack_kind credit_cash_kind bs = wrap credit_cash (CreditCash.unpack bs)
unpack_kind configure_replay_kind bs = wrap configure_replay (ConfigureReplay.unpack bs)
unpack_kind order_accepted_kind bs = wrap order_accepted (OrderAccepted.unpack bs)
unpack_kind order_rejected_kind bs = wrap order_rejected (OrderRejected.unpack bs)
unpack_kind fill_kind bs = wrap fill (Fill.unpack bs)
unpack_kind order_cancelled_kind bs = wrap order_cancelled (OrderCancelled.unpack bs)
unpack_kind book_changed_kind bs = wrap book_changed (BookChanged.unpack bs)
unpack_kind account_created_kind bs = wrap account_created (AccountCreated.unpack bs)
unpack_kind cash_credited_kind bs = wrap cash_credited (CashCredited.unpack bs)
unpack_kind replay_configured_kind bs = wrap replay_configured (ReplayConfigured.unpack bs)

unfoldable pub pack_any : AnyRecord → Option (List ℕ)
pack_any (submit_order r) = SubmitOrder.pack r
pack_any (cancel_order r) = CancelOrder.pack r
pack_any (create_account r) = CreateAccount.pack r
pack_any (credit_cash r) = CreditCash.pack r
pack_any (configure_replay r) = ConfigureReplay.pack r
pack_any (order_accepted r) = OrderAccepted.pack r
pack_any (order_rejected r) = OrderRejected.pack r
pack_any (fill r) = Fill.pack r
pack_any (order_cancelled r) = OrderCancelled.pack r
pack_any (book_changed r) = BookChanged.pack r
pack_any (account_created r) = AccountCreated.pack r
pack_any (cash_credited r) = CashCredited.pack r
pack_any (replay_configured r) = ReplayConfigured.pack r

-- A `struct.error`, and the two `ValueError`s.
pub data WireError : Type 0 where
  malformed : WireError
  unsupported_version : ℤ → WireError
  unknown_type : ℤ → WireError

unfoldable pub peek_schema_version : List ℕ → Option ℤ
peek_schema_version bs = unpack_from u16 bs 0

unfoldable pub peek_record_type : List ℕ → Option ℤ
peek_record_type bs = unpack_from u16 bs 2

unpack_as : Option Kind → ℤ → List ℕ → Result WireError AnyRecord
unpack_as none record_type bs = err (unknown_type record_type)
unpack_as (some kind) record_type bs = elim (unpack_kind kind bs) [
  | none ↦ err malformed
  | some r ↦ ok r
]

unpack_typed : Option ℤ → List ℕ → Result WireError AnyRecord
unfolding unpack_as
unpack_typed none bs = err malformed
unpack_typed (some record_type) bs = unpack_as (record_by_type record_type) record_type bs

unpack_versioned : Option ℤ → List ℕ → Result WireError AnyRecord
unfolding unpack_typed
unpack_versioned none bs = err malformed
unpack_versioned (some version) bs =
    if same version 2
    then unpack_typed (peek_record_type bs) bs
    else err (unsupported_version version)

unfoldable pub unpack_any : List ℕ → Result WireError AnyRecord
unfolding unpack_versioned
unpack_any bs = unpack_versioned (peek_schema_version bs) bs

-- `with_seq`, on the two halves of a stream id: `record._replace(seq_ms=..., seq_ord=...)`.
unfoldable pub with_seq : ℤ → ℤ → AnyRecord → AnyRecord
with_seq ms ordinal (submit_order r) = submit_order (record r { seq_ms = ms; seq_ord = ordinal })
with_seq ms ordinal (cancel_order r) = cancel_order (record r { seq_ms = ms; seq_ord = ordinal })
with_seq ms ordinal (create_account r) =
    create_account (record r { seq_ms = ms; seq_ord = ordinal })
with_seq ms ordinal (credit_cash r) = credit_cash (record r { seq_ms = ms; seq_ord = ordinal })
with_seq ms ordinal (configure_replay r) =
    configure_replay (record r { seq_ms = ms; seq_ord = ordinal })
with_seq ms ordinal (order_accepted r) =
    order_accepted (record r { seq_ms = ms; seq_ord = ordinal })
with_seq ms ordinal (order_rejected r) =
    order_rejected (record r { seq_ms = ms; seq_ord = ordinal })
with_seq ms ordinal (fill r) = fill (record r { seq_ms = ms; seq_ord = ordinal })
with_seq ms ordinal (order_cancelled r) =
    order_cancelled (record r { seq_ms = ms; seq_ord = ordinal })
with_seq ms ordinal (book_changed r) = book_changed (record r { seq_ms = ms; seq_ord = ordinal })
with_seq ms ordinal (account_created r) =
    account_created (record r { seq_ms = ms; seq_ord = ordinal })
with_seq ms ordinal (cash_credited r) = cash_credited (record r { seq_ms = ms; seq_ord = ordinal })
with_seq ms ordinal (replay_configured r) =
    replay_configured (record r { seq_ms = ms; seq_ord = ordinal })
