-- ===== src/Dict/Shift.antt =====
-- `d[k] = d.get(k, 0) + x`, the way in which balances and positions move.
use quant_arena.Prelude.{
  ◌≡◌, inl, inr, Option-cases, Bool, true, false, refl, ap, ==-cases, Eq, ◌==◌, if◌then◌else◌,
}
use quant_arena.Prelude.Int.{ℤ, pos, ◌+ℤ◌, int_laws, parts}
use quant_arena.Dict.{Dict, lookup, get_or, insert, get_or-insert}
use quant_arena.Dict.Sums.{sum_ℤ, sum_ℤ-insert, sum_ℤ-insert_new}

-- `x` if the test holds, and 0 if not.
abbrev pub selected : Bool → ℤ → ℤ
selected b x = if b then x else pos 0

selected-+ℤ : (b : Bool) (x y : ℤ) → selected b (x +ℤ y) ≡ selected b x +ℤ selected b y
selected-+ℤ true x y = refl
selected-+ℤ false x y = omega int_laws

selected-zero : (b : Bool) → selected b (pos 0) ≡ pos 0
selected-zero true = refl
selected-zero false = refl

-- `sum(v for k, v in d.items() if p(k))`
abbrev pub sum_where {ℓ} : {K : Type ℓ} → (K → Bool) → Dict K ℤ → ℤ
sum_where p d = sum_ℤ (λ k v. selected (p k) v) d

module _ {ℓ} {K : Type ℓ} ⦃e : Eq K⦄ where
  unfoldable pub shift : K → ℤ → Dict K ℤ → Dict K ℤ
  shift k x d = insert k (get_or k (pos 0) d +ℤ x) d

  -- The value of one key moves, by `x`.
  pub get_or-shift :
      (k j : K) (x : ℤ) (d : Dict K ℤ)
      → get_or j (pos 0) (shift k x d) ≡ get_or j (pos 0) d +ℤ selected (k == j) x
  unfolding shift
  get_or-shift k j x d = elim (==-cases k j) [
    | inl (t, p) ↦ rw get_or-insert (rw t (ap (λ (i : K). get_or i (pos 0) d +ℤ x) p))
    | inr (t, n) ↦ rw get_or-insert (rw t (omega int_laws))
  ]

  -- The sum of the values whose key is selected moves by `x` if `k` is selected, whether or not
  -- the dict had an entry for `k`.
  pub sum_where-shift :
      (p : K → Bool) (k : K) (x : ℤ) (d : Dict K ℤ)
      → sum_where p (shift k x d) ≡ sum_where p d +ℤ selected (p k) x
  unfolding shift get_or
  sum_where-shift p k x d = elim (Option-cases (lookup k d)) [
    | inl absent ↦
        rw (absent, get_or)
          (omega (
            int_laws,
            parts (sum_ℤ-insert_new (λ j v. selected (p j) v) k (pos 0 +ℤ x) d absent),
            parts (selected-+ℤ (p k) (pos 0) x),
            parts (selected-zero (p k)),
          ))
    | inr (v, found) ↦
        rw (found, get_or)
          (omega (
            int_laws,
            parts (sum_ℤ-insert (λ j v. selected (p j) v) k (v +ℤ x) v d found),
            parts (selected-+ℤ (p k) v x),
          ))
  ]
