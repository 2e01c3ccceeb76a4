-- ===== src/Wire/OrderCancelled.antt =====
-- `OrderCancelled` of contracts/v1/generated/contracts.py, record type 13.
use quant_arena.Prelude.{
  ℕ, String, map, ◌≡◌, refl, sym, ap, ◌∙◌, arith, Option, none, some, List, [], ◌∷◌, inl, inr,
  Option-cases,
}
use mathlib.Core.Option.{some-injective}
use quant_arena.Prelude.Int.{ℤ, pos}
use quant_arena.Wire.Struct
use quant_arena.Wire.Struct.{Code, calcsize, starts_from, u16, u64, i64, i16, u8}
use quant_arena.Wire.Struct.Laws.{unpack-pack}
use quant_arena.Wire.Struct.Canonical.{IsBytes, AllSized, pack-unpack}

pub record OrderCancelled : Type 0 where
  pub schema_version : ℤ
  pub record_type : ℤ
  pub seq_ms : ℤ
  pub seq_ord : ℤ
  pub timestamp_ns : ℤ
  pub order_id : ℤ
  pub client_order_id : ℤ
  pub user_id : ℤ
  pub remaining_qty : ℤ
  pub symbol_id : ℤ
  pub reason : ℤ

abbrev pub format : List Code
format = u16 ∷ u16 ∷ u64 ∷ u64 ∷ i64 ∷ u64 ∷ u64 ∷ u64 ∷ i64 ∷ i16 ∷ u8 ∷ []

abbrev pub size : ℕ
size = 63

abbrev pub type_id : ℤ
type_id = pos 13

-- `OFFSETS`, which debugging tools read.
abbrev pub offsets : List (String × ℕ)
offsets =
    ("schema_version", 0)
    ∷ ("record_type", 2)
    ∷ ("seq_ms", 4)
    ∷ ("seq_ord", 12)
    ∷ ("timestamp_ns", 20)
    ∷ ("order_id", 28)
    ∷ ("client_order_id", 36)
    ∷ ("user_id", 44)
    ∷ ("remaining_qty", 52)
    ∷ ("symbol_id", 60)
    ∷ ("reason", 62)
    ∷ []

-- The keyword arguments of `new`.
pub record Args : Type 0 where
  pub timestamp_ns : ℤ
  pub order_id : ℤ
  pub client_order_id : ℤ
  pub user_id : ℤ
  pub remaining_qty : ℤ
  pub symbol_id : ℤ
  pub reason : ℤ

-- The header filled in, and no sequence number yet.
unfoldable pub new : Args → OrderCancelled
new a = record {
  schema_version = pos 2;
  record_type = type_id;
  seq_ms = pos 0;
  seq_ord = pos 0;
  timestamp_ns = a.timestamp_ns;
  order_id = a.order_id;
  client_order_id = a.client_order_id;
  user_id = a.user_id;
  remaining_qty = a.remaining_qty;
  symbol_id = a.symbol_id;
  reason = a.reason;
}

-- The tuple that the record is.
abbrev pub fields : OrderCancelled → List ℤ
fields r =
    r.schema_version ∷ r.record_type ∷ r.seq_ms ∷ r.seq_ord ∷ r.timestamp_ns ∷ r.order_id
    ∷ r.client_order_id ∷ r.user_id ∷ r.remaining_qty ∷ r.symbol_id ∷ r.reason ∷ []

abbrev pub of_fields : List ℤ → Option OrderCancelled
of_fields
      (schema_version ∷ record_type ∷ seq_ms ∷ seq_ord ∷ timestamp_ns ∷ order_id ∷ client_order_id
        ∷ user_id ∷ remaining_qty ∷ symbol_id ∷ reason ∷ []) =
    some (record {
      schema_version = schema_version;
      record_type = record_type;
      seq_ms = seq_ms;
      seq_ord = seq_ord;
      timestamp_ns = timestamp_ns;
      order_id = order_id;
      client_order_id = client_order_id;
      user_id = user_id;
      remaining_qty = remaining_qty;
      symbol_id = symbol_id;
      reason = reason;
    })
of_fields _ = none

unfoldable pub pack : OrderCancelled → Option (List ℕ)
pack r = Struct.pack format (fields r)

unfoldable pub unpack : List ℕ → Option OrderCancelled
unpack bs = elim (Struct.unpack format bs) [ none ↦ none | some values ↦ of_fields values ]

abbrev sized : AllSized format
sized = omega arith

-- The assertion under the class: the format has the size that is stated.
size_agrees : calcsize format ≡ size
unfolding calcsize
size_agrees = refl

-- The offsets that are stated are those of the format.
offsets_agree : map (λ x. x.1) offsets ≡ starts_from 0 format
unfolding starts_from
offsets_agree = refl

pub OrderCancelled-roundtrip :
    (r : OrderCancelled) (bs : List ℕ) → pack r ≡ some bs → unpack bs ≡ some r
unfolding pack unpack
OrderCancelled-roundtrip r bs h = rw (unpack-pack format (fields r) bs h, unpack) refl

fields-of_fields :
    (values : List ℤ) (r : OrderCancelled) → of_fields values ≡ some r → values ≡ fields r
fields-of_fields
      (schema_version ∷ record_type ∷ seq_ms ∷ seq_ord ∷ timestamp_ns ∷ order_id ∷ client_order_id
        ∷ user_id ∷ remaining_qty ∷ symbol_id ∷ reason ∷ [])
      r h =
    ap fields (some-injective _ _ h)
fields-of_fields _ r h = cc

-- The buffer that unpacks to a record is the one that the record packs to.
pub OrderCancelled-canonical :
    (r : OrderCancelled) (bs : List ℕ) → IsBytes bs → unpack bs ≡ some r → pack r ≡ some bs
unfolding pack unpack
OrderCancelled-canonical r bs b h = elim (Option-cases (Struct.unpack format bs)) [
  | inl e ↦ absurd (cc (e, h))
  | inr (values, e) ↦
      let f : values ≡ fields r = fields-of_fields values r (rw (e, unpack) at h) in
      ap (Struct.pack format) (sym f) ∙ pack-unpack format values bs sized b e
]
