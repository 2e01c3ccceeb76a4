-- ===== src/Wire/Any/Roundtrip.antt =====
-- Every record survives the wire, and every buffer that is accepted is the one of its record.
use mathlib.Core.Path.{subst}
use mathlib.Core.Option.{some-injective}
use quant_arena.Prelude.{
  ℕ, ◌≡◌, refl, ap, ◌∙◌, Option, none, some, List, nat_eq, inl, inr, Option-cases, Bool-cases,
  arith, ok,
}
use quant_arena.Prelude.Int.{ℤ, pos}
use quant_arena.Wire.Struct.{u16}
use quant_arena.Wire.Struct.Laws.{unpack_from_first, unpack_from_second}
use quant_arena.Wire.Struct.Canonical.{IsBytes}
use quant_arena.Wire.Any.{
  AnyRecord, Kind, same, record_by_type, wrap, unpack_kind, pack_any, peek_schema_version,
  peek_record_type, unpack_as, unpack_typed, unpack_versioned, unpack_any, submit_order,
  submit_order_kind, cancel_order, cancel_order_kind, create_account, create_account_kind,
  credit_cash, credit_cash_kind, configure_replay, configure_replay_kind, order_accepted,
  order_accepted_kind, order_rejected, order_rejected_kind, fill, fill_kind, order_cancelled,
  order_cancelled_kind, book_changed, book_changed_kind, account_created, account_created_kind,
  cash_credited, cash_credited_kind, replay_configured, replay_configured_kind,
}
use quant_arena.Wire.SubmitOrder
use quant_arena.Wire.CancelOrder
use quant_arena.Wire.CreateAccount
use quant_arena.Wire.CreditCash
use quant_arena.Wire.ConfigureReplay
use quant_arena.Wire.OrderAccepted
use quant_arena.Wire.OrderRejected
use quant_arena.Wire.Fill
use quant_arena.Wire.OrderCancelled
use quant_arena.Wire.BookChanged
use quant_arena.Wire.AccountCreated
use quant_arena.Wire.CashCredited
use quant_arena.Wire.ReplayConfigured
use quant_arena.Wire.SubmitOrder.{SubmitOrder-roundtrip, SubmitOrder-canonical}
use quant_arena.Wire.CancelOrder.{CancelOrder-roundtrip, CancelOrder-canonical}
use quant_arena.Wire.CreateAccount.{CreateAccount-roundtrip, CreateAccount-canonical}
use quant_arena.Wire.CreditCash.{CreditCash-roundtrip, CreditCash-canonical}
use quant_arena.Wire.ConfigureReplay.{ConfigureReplay-roundtrip, ConfigureReplay-canonical}
use quant_arena.Wire.OrderAccepted.{OrderAccepted-roundtrip, OrderAccepted-canonical}
use quant_arena.Wire.OrderRejected.{OrderRejected-roundtrip, OrderRejected-canonical}
use quant_arena.Wire.Fill.{Fill-roundtrip, Fill-canonical}
use quant_arena.Wire.OrderCancelled.{OrderCancelled-roundtrip, OrderCancelled-canonical}
use quant_arena.Wire.BookChanged.{BookChanged-roundtrip, BookChanged-canonical}
use quant_arena.Wire.AccountCreated.{AccountCreated-roundtrip, AccountCreated-canonical}
use quant_arena.Wire.CashCredited.{CashCredited-roundtrip, CashCredited-canonical}
use quant_arena.Wire.ReplayConfigured.{ReplayConfigured-roundtrip, ReplayConfigured-canonical}

-- The header that the reader checks, as the record has it.
unfoldable pub version_of : AnyRecord → ℤ
version_of (submit_order r) = r.schema_version
version_of (cancel_order r) = r.schema_version
version_of (create_account r) = r.schema_version
version_of (credit_cash r) = r.schema_version
version_of (configure_replay r) = r.schema_version
version_of (order_accepted r) = r.schema_version
version_of (order_rejected r) = r.schema_version
version_of (fill r) = r.schema_version
version_of (order_cancelled r) = r.schema_version
version_of (book_changed r) = r.schema_version
version_of (account_created r) = r.schema_version
version_of (cash_credited r) = r.schema_version
version_of (replay_configured r) = r.schema_version

unfoldable pub type_of : AnyRecord → ℤ
type_of (submit_order r) = r.record_type
type_of (cancel_order r) = r.record_type
type_of (create_account r) = r.record_type
type_of (credit_cash r) = r.record_type
type_of (configure_replay r) = r.record_type
type_of (order_accepted r) = r.record_type
type_of (order_rejected r) = r.record_type
type_of (fill r) = r.record_type
type_of (order_cancelled r) = r.record_type
type_of (book_changed r) = r.record_type
type_of (account_created r) = r.record_type
type_of (cash_credited r) = r.record_type
type_of (replay_configured r) = r.record_type

unfoldable pub kind_of : AnyRecord → Kind
kind_of (submit_order r) = submit_order_kind
kind_of (cancel_order r) = cancel_order_kind
kind_of (create_account r) = create_account_kind
kind_of (credit_cash r) = credit_cash_kind
kind_of (configure_replay r) = configure_replay_kind
kind_of (order_accepted r) = order_accepted_kind
kind_of (order_rejected r) = order_rejected_kind
kind_of (fill r) = fill_kind
kind_of (order_cancelled r) = order_cancelled_kind
kind_of (book_changed r) = book_changed_kind
kind_of (account_created r) = account_created_kind
kind_of (cash_credited r) = cash_credited_kind
kind_of (replay_configured r) = replay_configured_kind

abbrev pub type_id : Kind → ℤ
type_id submit_order_kind = pos 1
type_id cancel_order_kind = pos 2
type_id create_account_kind = pos 3
type_id credit_cash_kind = pos 4
type_id configure_replay_kind = pos 5
type_id order_accepted_kind = pos 10
type_id order_rejected_kind = pos 11
type_id fill_kind = pos 12
type_id order_cancelled_kind = pos 13
type_id book_changed_kind = pos 14
type_id account_created_kind = pos 15
type_id cash_credited_kind = pos 16
type_id replay_configured_kind = pos 17

record_by_type-type_id : (k : Kind) → record_by_type (type_id k) ≡ some k
unfolding record_by_type
record_by_type-type_id submit_order_kind = refl
record_by_type-type_id cancel_order_kind = refl
record_by_type-type_id create_account_kind = refl
record_by_type-type_id credit_cash_kind = refl
record_by_type-type_id configure_replay_kind = refl
record_by_type-type_id order_accepted_kind = refl
record_by_type-type_id order_rejected_kind = refl
record_by_type-type_id fill_kind = refl
record_by_type-type_id order_cancelled_kind = refl
record_by_type-type_id book_changed_kind = refl
record_by_type-type_id account_created_kind = refl
record_by_type-type_id cash_credited_kind = refl
record_by_type-type_id replay_configured_kind = refl

peek_version-pack_any :
    (r : AnyRecord) (bs : List ℕ)
    → pack_any r ≡ some bs
    → peek_schema_version bs ≡ some (version_of r)
unfolding pack_any peek_schema_version version_of SubmitOrder.pack CancelOrder.pack
    CreateAccount.pack CreditCash.pack ConfigureReplay.pack OrderAccepted.pack OrderRejected.pack
    Fill.pack OrderCancelled.pack BookChanged.pack AccountCreated.pack CashCredited.pack
    ReplayConfigured.pack
peek_version-pack_any (submit_order r) bs h = unpack_from_first u16 _ r.schema_version _ bs h
peek_version-pack_any (cancel_order r) bs h = unpack_from_first u16 _ r.schema_version _ bs h
peek_version-pack_any (create_account r) bs h = unpack_from_first u16 _ r.schema_version _ bs h
peek_version-pack_any (credit_cash r) bs h = unpack_from_first u16 _ r.schema_version _ bs h
peek_version-pack_any (configure_replay r) bs h = unpack_from_first u16 _ r.schema_version _ bs h
peek_version-pack_any (order_accepted r) bs h = unpack_from_first u16 _ r.schema_version _ bs h
peek_version-pack_any (order_rejected r) bs h = unpack_from_first u16 _ r.schema_version _ bs h
peek_version-pack_any (fill r) bs h = unpack_from_first u16 _ r.schema_version _ bs h
peek_version-pack_any (order_cancelled r) bs h = unpack_from_first u16 _ r.schema_version _ bs h
peek_version-pack_any (book_changed r) bs h = unpack_from_first u16 _ r.schema_version _ bs h
peek_version-pack_any (account_created r) bs h = unpack_from_first u16 _ r.schema_version _ bs h
peek_version-pack_any (cash_credited r) bs h = unpack_from_first u16 _ r.schema_version _ bs h
peek_version-pack_any (replay_configured r) bs h = unpack_from_first u16 _ r.schema_version _ bs h

peek_type-pack_any :
    (r : AnyRecord) (bs : List ℕ) → pack_any r ≡ some bs → peek_record_type bs ≡ some (type_of r)
unfolding pack_any peek_record_type type_of SubmitOrder.pack CancelOrder.pack CreateAccount.pack
    CreditCash.pack ConfigureReplay.pack OrderAccepted.pack OrderRejected.pack Fill.pack
    OrderCancelled.pack BookChanged.pack AccountCreated.pack CashCredited.pack ReplayConfigured.pack
peek_type-pack_any (submit_order r) bs h =
    unpack_from_second u16 u16 _ r.schema_version r.record_type _ bs h
peek_type-pack_any (cancel_order r) bs h =
    unpack_from_second u16 u16 _ r.schema_version r.record_type _ bs h
peek_type-pack_any (create_account r) bs h =
    unpack_from_second u16 u16 _ r.schema_version r.record_type _ bs h
peek_type-pack_any (credit_cash r) bs h =
    unpack_from_second u16 u16 _ r.schema_version r.record_type _ bs h
peek_type-pack_any (configure_replay r) bs h =
    unpack_from_second u16 u16 _ r.schema_version r.record_type _ bs h
peek_type-pack_any (order_accepted r) bs h =
    unpack_from_second u16 u16 _ r.schema_version r.record_type _ bs h
peek_type-pack_any (order_rejected r) bs h =
    unpack_from_second u16 u16 _ r.schema_version r.record_type _ bs h
peek_type-pack_any (fill r) bs h =
    unpack_from_second u16 u16 _ r.schema_version r.record_type _ bs h
peek_type-pack_any (order_cancelled r) bs h =
    unpack_from_second u16 u16 _ r.schema_version r.record_type _ bs h
peek_type-pack_any (book_changed r) bs h =
    unpack_from_second u16 u16 _ r.schema_version r.record_type _ bs h
peek_type-pack_any (account_created r) bs h =
    unpack_from_second u16 u16 _ r.schema_version r.record_type _ bs h
peek_type-pack_any (cash_credited r) bs h =
    unpack_from_second u16 u16 _ r.schema_version r.record_type _ bs h
peek_type-pack_any (replay_configured r) bs h =
    unpack_from_second u16 u16 _ r.schema_version r.record_type _ bs h

unpack_kind-pack_any :
    (r : AnyRecord) (bs : List ℕ) → pack_any r ≡ some bs → unpack_kind (kind_of r) bs ≡ some r
unfolding pack_any unpack_kind kind_of
unpack_kind-pack_any (submit_order r) bs h = ap (wrap submit_order) (SubmitOrder-roundtrip r bs h)
unpack_kind-pack_any (cancel_order r) bs h = ap (wrap cancel_order) (CancelOrder-roundtrip r bs h)
unpack_kind-pack_any (create_account r) bs h =
    ap (wrap create_account) (CreateAccount-roundtrip r bs h)
unpack_kind-pack_any (credit_cash r) bs h = ap (wrap credit_cash) (CreditCash-roundtrip r bs h)
unpack_kind-pack_any (configure_replay r) bs h =
    ap (wrap configure_replay) (ConfigureReplay-roundtrip r bs h)
unpack_kind-pack_any (order_accepted r) bs h =
    ap (wrap order_accepted) (OrderAccepted-roundtrip r bs h)
unpack_kind-pack_any (order_rejected r) bs h =
    ap (wrap order_rejected) (OrderRejected-roundtrip r bs h)
unpack_kind-pack_any (fill r) bs h = ap (wrap fill) (Fill-roundtrip r bs h)
unpack_kind-pack_any (order_cancelled r) bs h =
    ap (wrap order_cancelled) (OrderCancelled-roundtrip r bs h)
unpack_kind-pack_any (book_changed r) bs h = ap (wrap book_changed) (BookChanged-roundtrip r bs h)
unpack_kind-pack_any (account_created r) bs h =
    ap (wrap account_created) (AccountCreated-roundtrip r bs h)
unpack_kind-pack_any (cash_credited r) bs h =
    ap (wrap cash_credited) (CashCredited-roundtrip r bs h)
unpack_kind-pack_any (replay_configured r) bs h =
    ap (wrap replay_configured) (ReplayConfigured-roundtrip r bs h)

-- A record of the current version whose discriminator is that of its class is read back from the
-- bytes that it packs to.
pub unpack_any-pack_any :
    (r : AnyRecord) (bs : List ℕ)
    → version_of r ≡ pos 2
    → type_of r ≡ type_id (kind_of r)
    → pack_any r ≡ some bs
    → unpack_any bs ≡ ok r
unfolding unpack_any
unpack_any-pack_any r bs v t h =
    let version : peek_schema_version bs ≡ some (pos 2) =
      peek_version-pack_any r bs h ∙ ap some v in
    let kind : peek_record_type bs ≡ some (type_id (kind_of r)) =
      peek_type-pack_any r bs h ∙ ap some t in
    ap (λ x. unpack_versioned x bs) version
    ∙ ap (λ x. unpack_typed x bs) kind
    ∙ ap (λ k. unpack_as k (type_id (kind_of r)) bs) (record_by_type-type_id (kind_of r))
    ∙ (rw (unpack_kind-pack_any r bs h, unpack_as) refl)

wrap-eq-some :
    {R : Type 0} (con : R → AnyRecord) (o : Option R) (a : AnyRecord)
    → wrap con o ≡ some a
    → (r : R) × (o ≡ some r) × (con r ≡ a)
wrap-eq-some con none a h = cc
wrap-eq-some con (some r) a h = (r, refl, some-injective _ _ h)

pack_any-unpack_kind :
    (k : Kind) (bs : List ℕ) (r : AnyRecord)
    → IsBytes bs
    → unpack_kind k bs ≡ some r
    → pack_any r ≡ some bs
unfolding pack_any unpack_kind
pack_any-unpack_kind submit_order_kind bs r b h =
    let (x, e, f) = wrap-eq-some submit_order (SubmitOrder.unpack bs) r h in
    subst (λ y. pack_any y ≡ some bs) f (SubmitOrder-canonical x bs b e)
pack_any-unpack_kind cancel_order_kind bs r b h =
    let (x, e, f) = wrap-eq-some cancel_order (CancelOrder.unpack bs) r h in
    subst (λ y. pack_any y ≡ some bs) f (CancelOrder-canonical x bs b e)
pack_any-unpack_kind create_account_kind bs r b h =
    let (x, e, f) = wrap-eq-some create_account (CreateAccount.unpack bs) r h in
    subst (λ y. pack_any y ≡ some bs) f (CreateAccount-canonical x bs b e)
pack_any-unpack_kind credit_cash_kind bs r b h =
    let (x, e, f) = wrap-eq-some credit_cash (CreditCash.unpack bs) r h in
    subst (λ y. pack_any y ≡ some bs) f (CreditCash-canonical x bs b e)
pack_any-unpack_kind configure_replay_kind bs r b h =
    let (x, e, f) = wrap-eq-some configure_replay (ConfigureReplay.unpack bs) r h in
    subst (λ y. pack_any y ≡ some bs) f (ConfigureReplay-canonical x bs b e)
pack_any-unpack_kind order_accepted_kind bs r b h =
    let (x, e, f) = wrap-eq-some order_accepted (OrderAccepted.unpack bs) r h in
    subst (λ y. pack_any y ≡ some bs) f (OrderAccepted-canonical x bs b e)
pack_any-unpack_kind order_rejected_kind bs r b h =
    let (x, e, f) = wrap-eq-some order_rejected (OrderRejected.unpack bs) r h in
    subst (λ y. pack_any y ≡ some bs) f (OrderRejected-canonical x bs b e)
pack_any-unpack_kind fill_kind bs r b h =
    let (x, e, f) = wrap-eq-some fill (Fill.unpack bs) r h in
    subst (λ y. pack_any y ≡ some bs) f (Fill-canonical x bs b e)
pack_any-unpack_kind order_cancelled_kind bs r b h =
    let (x, e, f) = wrap-eq-some order_cancelled (OrderCancelled.unpack bs) r h in
    subst (λ y. pack_any y ≡ some bs) f (OrderCancelled-canonical x bs b e)
pack_any-unpack_kind book_changed_kind bs r b h =
    let (x, e, f) = wrap-eq-some book_changed (BookChanged.unpack bs) r h in
    subst (λ y. pack_any y ≡ some bs) f (BookChanged-canonical x bs b e)
pack_any-unpack_kind account_created_kind bs r b h =
    let (x, e, f) = wrap-eq-some account_created (AccountCreated.unpack bs) r h in
    subst (λ y. pack_any y ≡ some bs) f (AccountCreated-canonical x bs b e)
pack_any-unpack_kind cash_credited_kind bs r b h =
    let (x, e, f) = wrap-eq-some cash_credited (CashCredited.unpack bs) r h in
    subst (λ y. pack_any y ≡ some bs) f (CashCredited-canonical x bs b e)
pack_any-unpack_kind replay_configured_kind bs r b h =
    let (x, e, f) = wrap-eq-some replay_configured (ReplayConfigured.unpack bs) r h in
    subst (λ y. pack_any y ≡ some bs) f (ReplayConfigured-canonical x bs b e)

-- What `unpack_any` did on its way to a record.
unpack_any-kind :
    (bs : List ℕ) (r : AnyRecord) → unpack_any bs ≡ ok r → (k : Kind) × (unpack_kind k bs ≡ some r)
unfolding unpack_any
unpack_any-kind bs r h = elim (Option-cases (peek_schema_version bs)) [
  | inl e ↦ absurd (ground (arith, e, h))
  | inr (v, e) ↦ elim (Bool-cases (same v 2)) [
    | inr f ↦ absurd (ground (arith, e, f, h))
    | inl f ↦ elim (Option-cases (peek_record_type bs)) [
      | inl g ↦ absurd (ground (arith, e, f, g, h))
      | inr (t, g) ↦ elim (Option-cases (record_by_type t)) [
        | inl i ↦ absurd (ground (arith, e, f, g, i, h))
        | inr (k, i) ↦ elim (Option-cases (unpack_kind k bs)) [
          | inl j ↦ absurd (ground (arith, e, f, g, i, j, h))
          | inr (x, j) ↦ (k, j ∙ ap some (ground (arith, e, f, g, i, j, h)))
        ]
      ]
    ]
  ]
]

-- A buffer of bytes that is read as a record is exactly what that record packs to: no two buffers
-- are read as the same record.
pub pack_any-unpack_any :
    (bs : List ℕ) (r : AnyRecord) → IsBytes bs → unpack_any bs ≡ ok r → pack_any r ≡ some bs
pack_any-unpack_any bs r b h =
    let (k, e) = unpack_any-kind bs r h in pack_any-unpack_kind k bs r b e
