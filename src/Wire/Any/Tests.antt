-- ===== src/Wire/Any/Tests.antt =====
-- A credit of minus 300 ticks, byte for byte.
use quant_arena.Prelude.{ℕ, ◌≡◌, refl, some, List, [], ◌∷◌, arith, nat_eq, ok, err}
use quant_arena.Prelude.Int.{pos, negsuc}
use quant_arena.Wire.Struct
use quant_arena.Wire.CreditCash
use quant_arena.Wire.CreditCash.{CreditCash, CreditCash-roundtrip}
use quant_arena.Wire.Any.{
  credit_cash, pack_any, unpack_any, unpack_kind, record_by_type, peek_schema_version,
  peek_record_type, unsupported_version,
}
use quant_arena.Wire.Any.Roundtrip.{
  version_of, type_of, kind_of, unpack_any-pack_any, pack_any-unpack_any,
}

abbrev correction : CreditCash
correction = CreditCash.new (record {
  timestamp_ns = pos 1_000;
  client_order_id = pos 5;
  user_id = pos 7;
  amount_ticks = negsuc 299;
})

abbrev buffer : List ℕ
buffer =
    2 ∷ 0 ∷ 4 ∷ 0 ∷ 0 ∷ 0 ∷ 0 ∷ 0 ∷ 0 ∷ 0 ∷ 0 ∷ 0 ∷ 0 ∷ 0 ∷ 0 ∷ 0 ∷ 0 ∷ 0 ∷ 0 ∷ 0 ∷ 232 ∷ 3 ∷ 0 ∷ 0
    ∷ 0 ∷ 0 ∷ 0 ∷ 0 ∷ 5 ∷ 0 ∷ 0 ∷ 0 ∷ 0 ∷ 0 ∷ 0 ∷ 0 ∷ 7 ∷ 0 ∷ 0 ∷ 0 ∷ 0 ∷ 0 ∷ 0 ∷ 0 ∷ 212 ∷ 254
    ∷ 255 ∷ 255 ∷ 255 ∷ 255 ∷ 255 ∷ 255 ∷ []

unpack_any-pack_any_example : unpack_any buffer ≡ ok (credit_cash correction)
unfolding version_of type_of kind_of pack_any CreditCash.pack CreditCash.new Struct.pack
    Struct.to_bytes Struct.limit
unpack_any-pack_any_example = unpack_any-pack_any (credit_cash correction) buffer refl refl refl

pack_any-unpack_any_example : pack_any (credit_cash correction) ≡ some buffer
unfolding unpack_any peek_schema_version peek_record_type record_by_type unpack_kind
    CreditCash.unpack CreditCash.new Struct.unpack Struct.read Struct.unpack_from Struct.from_bytes
    Struct.limit
pack_any-unpack_any_example = pack_any-unpack_any buffer (credit_cash correction) (omega arith) refl

-- The same bytes under version 3 are refused.
version_refused : unpack_any (3 ∷ 0 ∷ 4 ∷ []) ≡ err (unsupported_version (pos 3))
unfolding unpack_any peek_schema_version Struct.unpack_from Struct.from_bytes
version_refused = refl
