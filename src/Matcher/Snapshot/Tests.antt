-- ===== src/Matcher/Snapshot/Tests.antt =====
-- A book of one resting order, there and back.
use quant_arena.Prelude.{ℕ, ◌≡◌, refl, true, List, [], ◌∷◌, nat_eq, ok, err, length}
use quant_arena.Prelude.Int.{pos}
use quant_arena.Wire.Struct
use quant_arena.Matcher.Snapshot.{
  SnapshotOrder, EngineSnapshot, pack, pack_orders, sorted, unpack, too_short,
}
use quant_arena.Matcher.Snapshot.Roundtrip.{unpack-pack}

abbrev resting : SnapshotOrder
resting = record {
  order_id = pos 3;
  client_order_id = pos 5;
  user_id = pos 7;
  symbol_id = pos 1;
  side = pos 2;
  indexed = true;
  price_ticks = pos 1_000;
  remaining_qty = pos 4;
  created_at_ns = pos 9;
}

abbrev taken : EngineSnapshot
taken = record { next_order_id = pos 4; orders = resting ∷ [] }

abbrev buffer : List ℕ
buffer =
    81 ∷ 65 ∷ 83 ∷ 49 ∷ 4 ∷ 0 ∷ 0 ∷ 0 ∷ 0 ∷ 0 ∷ 0 ∷ 0 ∷ 1 ∷ 0 ∷ 0 ∷ 0 ∷ 3 ∷ 0 ∷ 0 ∷ 0 ∷ 0 ∷ 0 ∷ 0
    ∷ 0 ∷ 5 ∷ 0 ∷ 0 ∷ 0 ∷ 0 ∷ 0 ∷ 0 ∷ 0 ∷ 7 ∷ 0 ∷ 0 ∷ 0 ∷ 0 ∷ 0 ∷ 0 ∷ 0 ∷ 1 ∷ 0 ∷ 2 ∷ 1 ∷ 232 ∷ 3
    ∷ 0 ∷ 0 ∷ 0 ∷ 0 ∷ 0 ∷ 0 ∷ 4 ∷ 0 ∷ 0 ∷ 0 ∷ 0 ∷ 0 ∷ 0 ∷ 0 ∷ 9 ∷ 0 ∷ 0 ∷ 0 ∷ 0 ∷ 0 ∷ 0 ∷ 0 ∷ []

unpack-pack_example : unpack buffer ≡ ok taken
unfolding pack pack_orders sorted length Struct.pack Struct.to_bytes Struct.limit
unpack-pack_example = unpack-pack taken buffer (refl, refl, tt) refl

short_refused : unpack (81 ∷ 65 ∷ []) ≡ err too_short
unfolding unpack length
short_refused = refl
