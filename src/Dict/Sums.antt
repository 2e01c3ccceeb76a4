-- ===== src/Dict/Sums.antt =====
-- Sums over the values of a dict, and what an update does to them.
use quant_arena.Prelude.{ℕ, ◌+◌, ◌≡◌, refl, none, some, [], ◌∷◌, arith, Eq}
use quant_arena.Prelude.Int.{ℤ, pos, ◌+ℤ◌, int_laws}
use quant_arena.Dict.{Dict, lookup, insert, erase, IsUnique}

-- `sum(f(v) for v in d.values())`
unfoldable pub sum_ℕ {ℓ κ} : {K : Type ℓ} {V : Type κ} → (K → V → ℕ) → Dict K V → ℕ
sum_ℕ f [] = 0
sum_ℕ f ((k, v) ∷ d) = f k v + sum_ℕ f d

unfoldable pub sum_ℤ {ℓ κ} : {K : Type ℓ} {V : Type κ} → (K → V → ℤ) → Dict K V → ℤ
sum_ℤ f [] = pos 0
sum_ℤ f ((k, v) ∷ d) = f k v +ℤ sum_ℤ f d

module _ {ℓ κ} {K : Type ℓ} {V : Type κ} ⦃e : Eq K⦄ where
  -- An update replaces one summand.
  pub sum_ℕ-insert :
      (f : K → V → ℕ) (k : K) (v w : V) (d : Dict K V)
      → lookup k d ≡ some w
      → sum_ℕ f (insert k v d) + f k w ≡ sum_ℕ f d + f k v
  unfolding sum_ℕ lookup insert
  sum_ℕ-insert f k v w [] h = ground arith
  sum_ℕ-insert f k v w ((j, u) ∷ d) h = ground (arith, e.beq_iff j k, sum_ℕ-insert f k v w d)

  pub sum_ℕ-insert_new :
      (f : K → V → ℕ) (k : K) (v : V) (d : Dict K V)
      → lookup k d ≡ none
      → sum_ℕ f (insert k v d) ≡ sum_ℕ f d + f k v
  unfolding sum_ℕ lookup insert
  sum_ℕ-insert_new f k v [] h = ground arith
  sum_ℕ-insert_new f k v ((j, u) ∷ d) h = ground (arith, sum_ℕ-insert_new f k v d)

  pub sum_ℕ-erase-none :
      (f : K → V → ℕ) (k : K) (d : Dict K V) → lookup k d ≡ none → sum_ℕ f (erase k d) ≡ sum_ℕ f d
  unfolding sum_ℕ lookup erase
  sum_ℕ-erase-none f k [] h = refl
  sum_ℕ-erase-none f k ((j, u) ∷ d) h = ground (arith, sum_ℕ-erase-none f k d)

  pub sum_ℕ-erase :
      (f : K → V → ℕ) (k : K) (w : V) (d : Dict K V)
      → IsUnique d
      → lookup k d ≡ some w
      → sum_ℕ f (erase k d) + f k w ≡ sum_ℕ f d
  unfolding sum_ℕ lookup erase
  sum_ℕ-erase f k w [] u h = ground arith
  sum_ℕ-erase f k w ((j, x) ∷ d) u h =
      ground (arith, e.beq_iff j k, sum_ℕ-erase f k w d u.1, sum_ℕ-erase-none f k d)

  pub sum_ℤ-insert :
      (f : K → V → ℤ) (k : K) (v w : V) (d : Dict K V)
      → lookup k d ≡ some w
      → sum_ℤ f (insert k v d) +ℤ f k w ≡ sum_ℤ f d +ℤ f k v
  unfolding sum_ℤ lookup insert
  sum_ℤ-insert f k v w [] h = ground arith
  sum_ℤ-insert f k v w ((j, u) ∷ d) h = grind (int_laws, e.beq_iff j k, sum_ℤ-insert f k v w d)

  pub sum_ℤ-insert_new :
      (f : K → V → ℤ) (k : K) (v : V) (d : Dict K V)
      → lookup k d ≡ none
      → sum_ℤ f (insert k v d) ≡ sum_ℤ f d +ℤ f k v
  unfolding sum_ℤ lookup insert
  sum_ℤ-insert_new f k v [] h = omega int_laws
  sum_ℤ-insert_new f k v ((j, u) ∷ d) h = grind (int_laws, sum_ℤ-insert_new f k v d)
