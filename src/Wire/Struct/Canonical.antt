-- ===== src/Wire/Struct/Canonical.antt =====
-- A buffer is the only one that unpacks to its values.
use mathlib.Core.Path.{subst}
use mathlib.Core.List.{append-nil, append_assoc}
use mathlib.Core.Option.{some-injective}
use quant_arena.Prelude.{
  ℕ, zero, suc, ◌+◌, ◌-◌, ◌*◌, ◌/◌, ◌%◌, ◌<◌, ◌≡◌, refl, sym, ap, ◌∙◌, some, List, [], ◌∷◌, ◌++◌,
  arith, inl, inr, Option-cases,
}
use quant_arena.Prelude.Int.{ℤ}
use quant_arena.Wire.Struct.{
  Code, limit, to_bytes, from_bytes, to_word, from_word, split_at, pack, read, unpack,
}
use quant_arena.Wire.Struct.Laws.{to_word-from_word, read-cons}

-- Every element is a byte.
abbrev pub IsBytes : List ℕ → Type 0
IsBytes [] = Unit
IsBytes (b ∷ bs) = (b < 256) × IsBytes bs

-- Every code takes at least a byte.
abbrev pub AllSized : List Code → Type 0
AllSized [] = Unit
AllSized (c ∷ cs) = (0 < c.bytes) × AllSized cs

-- What a successful split found.
split_at_lem :
    (w : ℕ) (bs first rest : List ℕ)
    → split_at w bs ≡ some (first, rest)
    → IsBytes bs
    → (bs ≡ first ++ rest)
      × (to_bytes w (from_bytes first) ≡ first)
      × (from_bytes first < limit w)
      × IsBytes rest
unfolding split_at to_bytes from_bytes limit
split_at_lem zero bs first rest h b =
    let e = some-injective ([], bs) (first, rest) h in
    let f : [] ≡ first = ap (λ x. x.0) e in
    let g : bs ≡ rest = ap (λ x. x.1) e in rw (← f, ← g) (refl, refl, omega arith, b)
split_at_lem (suc w) [] first rest h b = cc
split_at_lem (suc w) (x ∷ bs) first rest h b = elim (Option-cases (split_at w bs)) [
  | inl e ↦ absurd (ground (arith, e))
  | inr ((more, end), e) ↦
      let later = split_at_lem w bs more end e b.1 in
      let p = some-injective (x ∷ more, end) (first, rest) (rw e at h) in
      let f : x ∷ more ≡ first = ap (λ y. y.0) p in
      let g : end ≡ rest = ap (λ y. y.1) p in
      rw (← f, ← g)
        (
          ap (λ y. x ∷ y) later.0,
          cc (
            later.1,
            (let q : (x + 256 * from_bytes more) % 256 ≡ x = omega (arith, b.0) in q),
            (let q : (x + 256 * from_bytes more) / 256 ≡ from_bytes more = omega (arith, b.0) in q),
          ),
          omega (arith, b.0, later.2),
          later.3,
        )
]

-- What a successful `read` did with its first code.
read-first :
    (c : Code) (cs : List Code) (bs : List ℕ) (vs : List ℤ) (end : List ℕ)
    → read (c ∷ cs) bs ≡ some (vs, end)
    → (first : List ℕ) × (rest : List ℕ) × (more : List ℤ) × (split_at c.bytes bs
        ≡ some (first, rest))
      × (read cs rest ≡ some (more, end))
      × (vs ≡ from_word c.signed c.bytes (from_bytes first) ∷ more)
unfolding read
read-first c cs bs vs end h = elim (Option-cases (split_at c.bytes bs)) [
  | inl e ↦ absurd (ground (arith, e))
  | inr ((first, rest), e) ↦ elim (Option-cases (read cs rest)) [
    | inl f ↦ absurd (ground (arith, e, f))
    | inr ((more, last), f) ↦
        let v = from_word c.signed c.bytes (from_bytes first) in
        let p : (v ∷ more, last) ≡ (vs, end) =
          some-injective _ _ (sym (read-cons c cs first rest bs e more last f) ∙ h) in
        (first, rest, more, e, f ∙ ap (λ x. some (more, x.1)) p, sym (ap (λ x. x.0) p))
  ]
]

-- `pack` in steps.
pack_step :
    (c : Code) (cs : List Code) (v : ℤ) (vs : List ℤ) (n : ℕ) (tail : List ℕ)
    → to_word c.signed c.bytes v ≡ some n
    → pack cs vs ≡ some tail
    → pack (c ∷ cs) (v ∷ vs) ≡ some (to_bytes c.bytes n ++ tail)
unfolding pack
pack_step c cs v vs n tail e f = ground (arith, e, f)

word_of :
    (c : Code) (n : ℕ)
    → 0 < c.bytes
    → n < limit c.bytes
    → to_word c.signed c.bytes (from_word c.signed c.bytes n) ≡ some n
word_of c n p h =
    let w = c.bytes - 1 in
    let e : c.bytes ≡ suc w = omega arith in
    subst (λ m. n < limit m → to_word c.signed m (from_word c.signed m n) ≡ some n) (sym e)
      (to_word-from_word c.signed w n) h

read-canonical :
    (cs : List Code) (vs : List ℤ) (bs end : List ℕ)
    → AllSized cs
    → IsBytes bs
    → read cs bs ≡ some (vs, end)
    → (front : List ℕ) × (pack cs vs ≡ some front) × (bs ≡ front ++ end)
unfolding read
read-canonical [] vs bs end s b h =
    let p = some-injective ([], bs) (vs, end) h in
    ([], unfold pack in ap (λ x. pack [] x.0) (sym p), ap (λ x. x.1) p)
read-canonical (c ∷ cs) vs bs end s b h =
    let (first, rest, more, e, f, g) = read-first c cs bs vs end h in
    let l = split_at_lem c.bytes bs first rest e b in
    let (front, p, q) = read-canonical cs more rest end s.1 l.3 f in
    let n = from_bytes first in
    (
      to_bytes c.bytes n ++ front,
      rw g (pack_step c cs _ more n front (word_of c n s.0 l.2) p),
      rw append_assoc (l.0 ∙ ap (λ x. first ++ x) q ∙ ap (λ x. x ++ (front ++ end)) (sym l.1)),
    )

-- `unpack` leaves nothing over.
pub read-unpack :
    (cs : List Code) (vs : List ℤ) (bs : List ℕ)
    → unpack cs bs ≡ some vs
    → read cs bs ≡ some (vs, [])
unfolding unpack
read-unpack cs vs bs h = elim (Option-cases (read cs bs)) [
  | inl e ↦ absurd (ground (arith, e))
  | inr ((ws, []), e) ↦ e ∙ ap (λ x. some (x, [])) (some-injective ws vs (rw (e, unpack) at h))
  | inr ((ws, b ∷ rest), e) ↦ absurd (ground (arith, e))
]

pub pack-unpack :
    (cs : List Code) (vs : List ℤ) (bs : List ℕ)
    → AllSized cs
    → IsBytes bs
    → unpack cs bs ≡ some vs
    → pack cs vs ≡ some bs
pack-unpack cs vs bs s b h =
    let (front, p, q) = read-canonical cs vs bs [] s b (read-unpack cs vs bs h) in
    p ∙ ap some (sym (q ∙ append-nil front))
