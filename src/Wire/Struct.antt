-- ===== src/Wire/Struct.antt =====
-- What the wire records use of Python's `struct`: little-endian integers without padding. A value
-- out of the range of its code is a `struct.error`, as is a buffer of another length.
pub mod Laws
pub mod Canonical
use quant_arena.Prelude.{
  ℕ, zero, suc, ◌+◌, ◌-◌, ◌*◌, ◌/◌, ◌%◌, ◌<◌, Bool, true, false, Option, none, some, List, [], ◌∷◌,
  ◌++◌, ltb, if◌then◌else◌,
}
use quant_arena.Prelude.Int.{ℤ, pos, negsuc}

-- A character of a format string: how many bytes, and whether it is signed.
pub record Code : Type 0 where
  pub bytes : ℕ
  pub signed : Bool

-- The characters `B`, `H`, `I`, `Q`, `h` and `q`.
abbrev pub u8 : Code
u8 = record { bytes = 1; signed = false }

abbrev pub u16 : Code
u16 = record { bytes = 2; signed = false }

abbrev pub u32 : Code
u32 = record { bytes = 4; signed = false }

abbrev pub u64 : Code
u64 = record { bytes = 8; signed = false }

abbrev pub i16 : Code
i16 = record { bytes = 2; signed = true }

abbrev pub i64 : Code
i64 = record { bytes = 8; signed = true }

-- The number of values of so many bytes.
unfoldable pub limit : ℕ → ℕ
limit zero = 1
limit (suc w) = 256 * limit w

-- `struct.calcsize`
unfoldable pub calcsize : List Code → ℕ
calcsize [] = 0
calcsize (c ∷ cs) = c.bytes + calcsize cs

-- Where each value of a format starts.
unfoldable pub starts_from : ℕ → List Code → List ℕ
starts_from n [] = []
starts_from n (c ∷ cs) = n ∷ starts_from (n + c.bytes) cs

unfoldable pub to_bytes : ℕ → ℕ → List ℕ
to_bytes zero n = []
to_bytes (suc w) n = (n % 256) ∷ to_bytes w (n / 256)

unfoldable pub from_bytes : List ℕ → ℕ
from_bytes [] = 0
from_bytes (b ∷ bs) = b + 256 * from_bytes bs

-- The pattern of an integer, in two's complement if the code is signed.
pub to_word : Bool → ℕ → ℤ → Option ℕ
to_word false w (pos n) = if ltb n (limit w) then some n else none
to_word false w (negsuc n) = none
to_word true w (pos n) = if ltb n (limit w / 2) then some n else none
to_word true w (negsuc n) = if ltb n (limit w / 2) then some (limit w - 1 - n) else none

pub from_word : Bool → ℕ → ℕ → ℤ
from_word false w n = pos n
from_word true w n = if ltb n (limit w / 2) then pos n else negsuc (limit w - 1 - n)

-- The first bytes of a buffer, and the rest.
unfoldable pub split_at : ℕ → List ℕ → Option (List ℕ × List ℕ)
split_at zero bs = some ([], bs)
split_at (suc w) [] = none
split_at (suc w) (b ∷ bs) = elim (split_at w bs) [
  | none ↦ none
  | some (first, rest) ↦ some (b ∷ first, rest)
]

unfoldable pub pack : List Code → List ℤ → Option (List ℕ)
unfolding to_word
pack [] [] = some []
pack [] (v ∷ vs) = none
pack (c ∷ cs) [] = none
pack (c ∷ cs) (v ∷ vs) = elim (to_word c.signed c.bytes v) [
  | none ↦ none
  | some n ↦ elim (pack cs vs) [ none ↦ none | some bs ↦ some (to_bytes c.bytes n ++ bs) ]
]

-- The values at the front of a buffer, and what follows them.
unfoldable pub read : List Code → List ℕ → Option (List ℤ × List ℕ)
unfolding split_at from_word
read [] bs = some ([], bs)
read (c ∷ cs) bs = elim (split_at c.bytes bs) [
  | none ↦ none
  | some (first, rest) ↦ elim (read cs rest) [
    | none ↦ none
    | some (vs, end) ↦ some (from_word c.signed c.bytes (from_bytes first) ∷ vs, end)
  ]
]

-- The whole buffer, and nothing after it.
unfoldable pub unpack : List Code → List ℕ → Option (List ℤ)
unpack cs bs = elim (read cs bs) [
  | none ↦ none
  | some (vs, []) ↦ some vs
  | some (vs, b ∷ rest) ↦ none
]

drop : ℕ → List ℕ → List ℕ
drop zero bs = bs
drop (suc n) [] = []
drop (suc n) (b ∷ bs) = drop n bs

-- `struct.unpack_from` of one value at an offset.
unfoldable pub unpack_from : Code → List ℕ → ℕ → Option ℤ
unfolding drop split_at from_word
unpack_from c bs offset = elim (split_at c.bytes (drop offset bs)) [
  | none ↦ none
  | some (first, rest) ↦ some (from_word c.signed c.bytes (from_bytes first))
]
