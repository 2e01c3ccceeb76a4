-- ===== src/Dict/Extremes.antt =====
-- The greatest and the least of a list: `max(xs, default=None)`, and `max(xs) if xs else None`.
use mathlib.Core.Option.{some-injective}
use quant_arena.Prelude.{
  ℕ, ◌≤◌, max, min, ◌≡◌, refl, sym, ap, ◌∙◌, true, false, Option, none, some, List, [], ◌∷◌, arith,
  ◌==◌, nat_eq, inl, inr, Bool-cases, Option-cases,
}
use quant_arena.Dict.{contains}

unfoldable pub highest : List ℕ → Option ℕ
highest [] = none
highest (p ∷ ps) = elim (highest ps) [ none ↦ some p | some q ↦ some (max p q) ]

unfoldable pub lowest : List ℕ → Option ℕ
lowest [] = none
lowest (p ∷ ps) = elim (lowest ps) [ none ↦ some p | some q ↦ some (min p q) ]

-- Both are members of the list, and bound it.
pub highest-none : (ps : List ℕ) → highest ps ≡ none → ps ≡ []
unfolding highest
highest-none [] h = refl
highest-none (x ∷ ps) h =
    absurd
      (elim (Option-cases (highest ps)) [ inl n ↦ cc (rw n at h) | inr (y, s) ↦ cc (rw s at h) ])

pub contains-highest : (ps : List ℕ) (p : ℕ) → highest ps ≡ some p → contains p ps ≡ true
unfolding highest contains
contains-highest [] p h = cc
contains-highest (x ∷ ps) p h = elim (Option-cases (highest ps)) [
  | inl n ↦ let e : x ≡ p = some-injective _ _ (rw n at h) in ground (arith, e)
  | inr (y, s) ↦
      let e : max x y ≡ p = some-injective _ _ (rw s at h) in
      elim (Bool-cases (x == p)) [
        | inl c ↦ ground (arith, c)
        | inr c ↦
            let f : y ≡ p = ground (arith, e, c) in
            ground (arith, ap (λ q. contains q ps) (sym f) ∙ contains-highest ps y s)
      ]
]

pub highest_bounds : (ps : List ℕ) (p q : ℕ) → highest ps ≡ some p → contains q ps ≡ true → q ≤ p
unfolding highest contains
highest_bounds [] p q h c = cc
highest_bounds (x ∷ ps) p q h c = elim (Option-cases (highest ps)) [
  | inl n ↦
      let e : x ≡ p = some-injective _ _ (rw n at h) in
      let f : contains q ps ≡ false = ap (contains q) (highest-none ps n) in ground (arith, e, f, c)
  | inr (y, s) ↦
      let e : max x y ≡ p = some-injective _ _ (rw s at h) in
      ground (arith, e, c, highest_bounds ps y q s)
]

pub lowest-none : (ps : List ℕ) → lowest ps ≡ none → ps ≡ []
unfolding lowest
lowest-none [] h = refl
lowest-none (x ∷ ps) h =
    absurd
      (elim (Option-cases (lowest ps)) [ inl n ↦ cc (rw n at h) | inr (y, s) ↦ cc (rw s at h) ])

pub contains-lowest : (ps : List ℕ) (p : ℕ) → lowest ps ≡ some p → contains p ps ≡ true
unfolding lowest contains
contains-lowest [] p h = cc
contains-lowest (x ∷ ps) p h = elim (Option-cases (lowest ps)) [
  | inl n ↦ let e : x ≡ p = some-injective _ _ (rw n at h) in ground (arith, e)
  | inr (y, s) ↦
      let e : min x y ≡ p = some-injective _ _ (rw s at h) in
      elim (Bool-cases (x == p)) [
        | inl c ↦ ground (arith, c)
        | inr c ↦
            let f : y ≡ p = ground (arith, e, c) in
            ground (arith, ap (λ q. contains q ps) (sym f) ∙ contains-lowest ps y s)
      ]
]

pub lowest_bounds : (ps : List ℕ) (p q : ℕ) → lowest ps ≡ some p → contains q ps ≡ true → p ≤ q
unfolding lowest contains
lowest_bounds [] p q h c = cc
lowest_bounds (x ∷ ps) p q h c = elim (Option-cases (lowest ps)) [
  | inl n ↦
      let e : x ≡ p = some-injective _ _ (rw n at h) in
      let f : contains q ps ≡ false = ap (contains q) (lowest-none ps n) in ground (arith, e, f, c)
  | inr (y, s) ↦
      let e : min x y ≡ p = some-injective _ _ (rw s at h) in
      ground (arith, e, c, lowest_bounds ps y q s)
]
