-- ===== src/Dict/Counts.antt =====
-- Dicts of counters that never fall below zero: `d[k] = d.get(k, 0) + n` and
-- `d[k] = max(0, d.get(k, 0) - n)`.
use quant_arena.Prelude.{ℕ, ◌+◌, ◌-◌, ◌≡◌, ap, arith, inl, inr, Eq, ◌==◌, ==-cases, if◌then◌else◌}
use quant_arena.Dict.{Dict, get_or, insert, get_or-insert}

module _ {ℓ} {K : Type ℓ} ⦃e : Eq K⦄ where
  unfoldable pub gain : K → ℕ → Dict K ℕ → Dict K ℕ
  gain k n d = insert k (get_or k 0 d + n) d

  unfoldable pub drop_to_zero : K → ℕ → Dict K ℕ → Dict K ℕ
  drop_to_zero k n d = insert k (get_or k 0 d - n) d

  pub get_or-gain :
      (k j : K) (n : ℕ) (d : Dict K ℕ)
      → get_or j 0 (gain k n d) ≡ get_or j 0 d + (if k == j then n else 0)
  unfolding gain
  get_or-gain k j n d = elim (==-cases k j) [
    | inl (t, p) ↦ rw get_or-insert (rw t (ap (λ (i : K). get_or i 0 d + n) p))
    | inr (t, p) ↦ rw get_or-insert (rw t (omega arith))
  ]

  pub get_or-drop_to_zero :
      (k j : K) (n : ℕ) (d : Dict K ℕ)
      → get_or j 0 (drop_to_zero k n d) ≡ get_or j 0 d - (if k == j then n else 0)
  unfolding drop_to_zero
  get_or-drop_to_zero k j n d = elim (==-cases k j) [
    | inl (t, p) ↦ rw get_or-insert (rw t (ap (λ (i : K). get_or i 0 d - n) p))
    | inr (t, p) ↦ rw get_or-insert (rw t (omega arith))
  ]
