-- ===== src/Wire/Struct/Laws.antt =====
-- Packing and unpacking are inverse to each other.
use mathlib.Core.List.{append_assoc, append-nil}
use quant_arena.Prelude.{
  ℕ, zero, suc, ◌/◌, ◌<◌, ◌≡◌, refl, ap, ◌∙◌, Bool, true, false, none, some, List, [], ◌∷◌, ◌++◌,
  arith, length, length-++, inl, inr, Option-cases,
}
use quant_arena.Prelude.Int.{ℤ, pos, negsuc}
use quant_arena.Wire.Struct.{
  Code, limit, calcsize, to_bytes, from_bytes, to_word, from_word, split_at, pack, read, unpack,
  drop, unpack_from,
}

from_bytes-to_bytes : (w n : ℕ) → n < limit w → from_bytes (to_bytes w n) ≡ n
unfolding from_bytes to_bytes limit
from_bytes-to_bytes zero n h = omega arith
from_bytes-to_bytes (suc w) n h = omega (arith, from_bytes-to_bytes w (n / 256))

to_word-lt : (s : Bool) (w : ℕ) (v : ℤ) (n : ℕ) → to_word s w v ≡ some n → n < limit w
unfolding to_word
to_word-lt false w (pos m) n h = ground arith
to_word-lt false w (negsuc m) n h = cc
to_word-lt true w (pos m) n h = ground arith
to_word-lt true w (negsuc m) n h = ground arith

from_word-to_word :
    (s : Bool) (w : ℕ) (v : ℤ) (n : ℕ) → to_word s w v ≡ some n → from_word s w n ≡ v
unfolding to_word from_word
from_word-to_word false w (pos m) n h = ground arith
from_word-to_word false w (negsuc m) n h = cc
from_word-to_word true w (pos m) n h = ground arith
from_word-to_word true w (negsuc m) n h = ground arith

pub to_word-from_word :
    (s : Bool) (w n : ℕ) → n < limit (suc w) → to_word s (suc w) (from_word s (suc w) n) ≡ some n
unfolding to_word from_word limit
to_word-from_word false w n h = ground arith
to_word-from_word true w n h = ground arith

split_at-to_bytes :
    (w n : ℕ) (rest : List ℕ) → split_at w (to_bytes w n ++ rest) ≡ some (to_bytes w n, rest)
unfolding split_at to_bytes
split_at-to_bytes zero n rest = refl
split_at-to_bytes (suc w) n rest = rw (split_at-to_bytes w (n / 256) rest)

-- What a successful `pack` did with its first value.
pack-cons :
    (c : Code) (cs : List Code) (v : ℤ) (vs : List ℤ) (bs : List ℕ)
    → pack (c ∷ cs) (v ∷ vs) ≡ some bs
    → (n : ℕ) × (tail : List ℕ) × (to_word c.signed c.bytes v ≡ some n)
      × (pack cs vs ≡ some tail)
      × (bs ≡ to_bytes c.bytes n ++ tail)
unfolding pack
pack-cons c cs v vs bs h = elim (Option-cases (to_word c.signed c.bytes v)) [
  | inl e ↦ absurd (ground (arith, e))
  | inr (n, e) ↦ elim (Option-cases (pack cs vs)) [
    | inl f ↦ absurd (ground (arith, e, f))
    | inr (tail, f) ↦ (n, tail, e, f, ground (arith, e, f))
  ]
]

-- `read` in steps.
pub read-cons :
    (c : Code) (cs : List Code) (first rest : List ℕ) (bs : List ℕ)
    → split_at c.bytes bs ≡ some (first, rest)
    → (vs : List ℤ) (end : List ℕ) → read cs rest ≡ some (vs, end)
    → read (c ∷ cs) bs ≡ some (from_word c.signed c.bytes (from_bytes first) ∷ vs, end)
unfolding read
read-cons c cs first rest bs h vs end k = ground (arith, h, k)

pub read-pack :
    (cs : List Code) (vs : List ℤ) (bs rest : List ℕ)
    → pack cs vs ≡ some bs
    → read cs (bs ++ rest) ≡ some (vs, rest)
unfolding pack read
read-pack [] [] bs rest h = ground arith
read-pack [] (v ∷ vs) bs rest h = cc
read-pack (c ∷ cs) [] bs rest h = cc
read-pack (c ∷ cs) (v ∷ vs) bs rest h =
    let (n, tail, e, f, g) = pack-cons c cs v vs bs h in
    let split : split_at c.bytes (bs ++ rest) ≡ some (to_bytes c.bytes n, tail ++ rest) =
      rw (g, append_assoc) (split_at-to_bytes c.bytes n (tail ++ rest)) in
    let value : from_word c.signed c.bytes (from_bytes (to_bytes c.bytes n)) ≡ v =
      rw (from_bytes-to_bytes c.bytes n (to_word-lt c.signed c.bytes v n e))
        (from_word-to_word c.signed c.bytes v n e) in
    read-cons c cs _ _ (bs ++ rest) split vs rest (read-pack cs vs tail rest f)
    ∙ ap (λ x. some (x ∷ vs, rest)) value

pub unpack-pack :
    (cs : List Code) (vs : List ℤ) (bs : List ℕ) → pack cs vs ≡ some bs → unpack cs bs ≡ some vs
unfolding unpack
unpack-pack cs vs bs h =
    let r : read cs bs ≡ some (vs, []) = rw append-nil at (read-pack cs vs bs [] h) in
    rw (r, unpack)

-- A record that packs has the size of its format.
length-to_bytes : (w n : ℕ) → length (to_bytes w n) ≡ w
unfolding length to_bytes
length-to_bytes zero n = refl
length-to_bytes (suc w) n = omega (arith, length-to_bytes w (n / 256))

pub length-pack :
    (cs : List Code) (vs : List ℤ) (bs : List ℕ) → pack cs vs ≡ some bs → length bs ≡ calcsize cs
unfolding pack calcsize length
length-pack [] [] bs h = ground arith
length-pack [] (v ∷ vs) bs h = cc
length-pack (c ∷ cs) [] bs h = cc
length-pack (c ∷ cs) (v ∷ vs) bs h =
    let (n, tail, e, f, g) = pack-cons c cs v vs bs h in
    rw g (
      omega (
        arith,
        length-++ (to_bytes c.bytes n) tail,
        length-to_bytes c.bytes n,
        length-pack cs vs tail f,
      ))

-- The header is read without the rest.
pub unpack_from_first :
    (c : Code) (cs : List Code) (v : ℤ) (vs : List ℤ) (bs : List ℕ)
    → pack (c ∷ cs) (v ∷ vs) ≡ some bs
    → unpack_from c bs 0 ≡ some v
unfolding unpack_from drop
unpack_from_first c cs v vs bs h =
    let (n, tail, e, f, g) = pack-cons c cs v vs bs h in
    let split : split_at c.bytes bs ≡ some (to_bytes c.bytes n, tail) =
      rw g (split_at-to_bytes c.bytes n tail) in
    rw (split, unpack_from)
      (ap some (
        rw (from_bytes-to_bytes c.bytes n (to_word-lt c.signed c.bytes v n e))
          (from_word-to_word c.signed c.bytes v n e)))

drop-to_bytes : (w n : ℕ) (rest : List ℕ) → drop w (to_bytes w n ++ rest) ≡ rest
unfolding drop to_bytes
drop-to_bytes zero n rest = refl
drop-to_bytes (suc w) n rest = drop-to_bytes w (n / 256) rest

pub unpack_from_second :
    (d c : Code) (cs : List Code) (u v : ℤ) (vs : List ℤ) (bs : List ℕ)
    → pack (d ∷ c ∷ cs) (u ∷ v ∷ vs) ≡ some bs
    → unpack_from c bs d.bytes ≡ some v
unfolding unpack_from drop
unpack_from_second d c cs u v vs bs h =
    let (n, tail, e, f, g) = pack-cons d (c ∷ cs) u (v ∷ vs) bs h in
    let dropped : drop d.bytes bs ≡ tail = rw g (drop-to_bytes d.bytes n tail) in
    ap
      (λ x. elim (split_at c.bytes x) [
        | none ↦ none
        | some (first, rest) ↦ some (from_word c.signed c.bytes (from_bytes first))
      ])
      dropped
    ∙ unpack_from_first c cs v vs tail f
