-- ===== src/Matcher/Snapshot.antt =====
-- services/matcher/snapshot.py: the engine's state as bytes, in the format that both engines emit.
pub mod Roundtrip
mod Tests
use quant_arena.Prelude.{
  ℕ, zero, suc, ◌+◌, ◌*◌, Bool, true, false, ◌||◌, ◌&&◌, not, Option, none, some, List, [], ◌∷◌,
  ◌++◌, ltb, ◌==◌, nat_eq, if◌then◌else◌, length, Result, ok, err,
}
use quant_arena.Prelude.Int.{ℤ, pos, pos_part, ltb_ℤ, is_zero}
use quant_arena.Wire.Struct
use quant_arena.Wire.Struct.{Code, u8, u32, u64, i16, i64, split_at, read}

-- `QAS1`
abbrev pub magic : List ℕ
magic = 81 ∷ 65 ∷ 83 ∷ 49 ∷ []

-- The rest of the header: the next order id, and the number of orders.
abbrev pub head_format : List Code
head_format = u64 ∷ u32 ∷ []

abbrev pub head_size : ℕ
head_size = 16

abbrev pub order_format : List Code
order_format = u64 ∷ u64 ∷ u64 ∷ i16 ∷ u8 ∷ u8 ∷ i64 ∷ i64 ∷ i64 ∷ []

abbrev pub order_size : ℕ
order_size = 52

pub record SnapshotOrder : Type 0 where
  pub order_id : ℤ
  pub client_order_id : ℤ
  pub user_id : ℤ
  pub symbol_id : ℤ
  pub side : ℤ
  pub indexed : Bool
  pub price_ticks : ℤ
  pub remaining_qty : ℤ
  pub created_at_ns : ℤ

pub record EngineSnapshot : Type 0 where
  pub next_order_id : ℤ
  pub orders : List SnapshotOrder

abbrev pub flag : Bool → ℤ
flag true = pos 1
flag false = pos 0

abbrev pub fields : SnapshotOrder → List ℤ
fields o =
    o.order_id
    ∷ o.client_order_id
    ∷ o.user_id
    ∷ o.symbol_id
    ∷ o.side
    ∷ flag o.indexed
    ∷ o.price_ticks
    ∷ o.remaining_qty
    ∷ o.created_at_ns
    ∷ []

abbrev pub of_fields : List ℤ → Option SnapshotOrder
of_fields
      (order_id ∷ client_order_id ∷ user_id ∷ symbol_id ∷ side ∷ indexed ∷ price_ticks
        ∷ remaining_qty ∷ created_at_ns ∷ []) =
    some (record {
      order_id = order_id;
      client_order_id = client_order_id;
      user_id = user_id;
      symbol_id = symbol_id;
      side = side;
      indexed = not (is_zero indexed);
      price_ticks = price_ticks;
      remaining_qty = remaining_qty;
      created_at_ns = created_at_ns;
    })
of_fields _ = none

-- `sorted(self.orders, key=lambda o: o.order_id)`, which is stable.
place : SnapshotOrder → List SnapshotOrder → List SnapshotOrder
place o [] = o ∷ []
place o (p ∷ ps) =
    let rest = place o ps in if ltb_ℤ p.order_id o.order_id then p ∷ rest else o ∷ p ∷ ps

unfoldable pub sorted : List SnapshotOrder → List SnapshotOrder
unfolding place
sorted [] = []
sorted (o ∷ os) = place o (sorted os)

unfoldable pub pack_orders : List SnapshotOrder → Option (List ℕ)
pack_orders [] = some []
pack_orders (o ∷ os) = elim (Struct.pack order_format (fields o)) [
  | none ↦ none
  | some bs ↦ elim (pack_orders os) [ none ↦ none | some rest ↦ some (bs ++ rest) ]
]

-- The header and the orders in ascending order.
unfoldable pub pack : EngineSnapshot → Option (List ℕ)
pack s =
    let ordered = sorted s.orders in
    elim (Struct.pack head_format (s.next_order_id ∷ pos (length ordered) ∷ [])) [
      | none ↦ none
      | some head ↦ elim (pack_orders ordered) [
        | none ↦ none
        | some body ↦ some (magic ++ (head ++ body))
      ]
    ]

-- The `ValueError`s of `unpack`, and a `struct.error`.
pub data SnapshotError : Type 0 where
  too_short : SnapshotError
  not_a_snapshot : SnapshotError
  wrong_length : SnapshotError
  not_ascending : SnapshotError
  malformed : SnapshotError

abbrev pub same_bytes : List ℕ → List ℕ → Bool
same_bytes [] [] = true
same_bytes (x ∷ xs) (y ∷ ys) = x == y && same_bytes xs ys
same_bytes _ _ = false

abbrev pub also :
    SnapshotOrder
    → Result SnapshotError (List SnapshotOrder)
    → Result SnapshotError (List SnapshotOrder)
also o (ok os) = ok (o ∷ os)
also o (err e) = err e

-- The loop over `range(count)`, each time at the next offset.
unfoldable pub unpack_orders : ℕ → ℤ → ℤ → List ℕ → Result SnapshotError (List SnapshotOrder)
unpack_orders zero previous next_order_id bs = ok []
unpack_orders (suc count) previous next_order_id bs = elim (read order_format bs) [
  | none ↦ err malformed
  | some (values, rest) ↦ elim (of_fields values) [
    | none ↦ err malformed
    | some o ↦
        let later = unpack_orders count o.order_id next_order_id rest in
        if not (ltb_ℤ previous o.order_id) || not (ltb_ℤ o.order_id next_order_id)
        then err not_ascending
        else also o later
  ]
]

abbrev pub with_next :
    ℤ → Result SnapshotError (List SnapshotOrder) → Result SnapshotError EngineSnapshot
with_next next_order_id (ok os) = ok (record { next_order_id = next_order_id; orders = os })
with_next next_order_id (err e) = err e

-- After the header was read.
unpack_body : List ℕ → ℕ → ℤ → ℕ → List ℕ → Result SnapshotError EngineSnapshot
unpack_body first size next_order_id count body =
    if not (same_bytes first magic)
    then err not_a_snapshot
    else if not (size == head_size + count * order_size)
    then err wrong_length
    else with_next next_order_id (unpack_orders count (pos 0) next_order_id body)

unpack_head : List ℕ → ℕ → Option (List ℤ × List ℕ) → Result SnapshotError EngineSnapshot
unfolding unpack_body
unpack_head first size (some (next_order_id ∷ count ∷ [], body)) =
    unpack_body first size next_order_id (pos_part count) body
unpack_head first size _ = err malformed

unfoldable pub unpack : List ℕ → Result SnapshotError EngineSnapshot
unfolding unpack_head
unpack bs = if ltb (length bs) head_size then err too_short else elim (split_at 4 bs) [
  | none ↦ err malformed
  | some (first, rest) ↦ unpack_head first (length bs) (read head_format rest)
]
