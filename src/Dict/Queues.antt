-- ===== src/Dict/Queues.antt =====
-- Queues without repetition: a level's orders in arrival order.
use quant_arena.Prelude.{
  ◌≡◌, refl, ap, sym, ◌∙◌, false, ◌&&◌, ◌||◌, not, List, [], ◌∷◌, ◌++◌, arith, Eq, ◌==◌, ==-cases,
  inl, inr, if◌then◌else◌,
}
use quant_arena.Dict.{contains}

module _ {ℓ} {K : Type ℓ} ⦃e : Eq K⦄ where
  -- `deque.remove`: the first that is equal.
  unfoldable pub discard : K → List K → List K
  discard k [] = []
  discard k (j ∷ ks) = let rest = discard k ks in if j == k then ks else j ∷ rest

  abbrev pub IsDistinct : List K → Type 0
  IsDistinct [] = Unit
  IsDistinct (k ∷ ks) = (contains k ks ≡ false) × IsDistinct ks

  pub contains-discard :
      (k j : K) (ks : List K)
      → IsDistinct ks
      → contains j (discard k ks) ≡ (contains j ks && not (k == j))
  unfolding contains discard
  contains-discard k j [] h = refl
  contains-discard k j (i ∷ ks) h = elim (==-cases i k) [
    | inl (t, p) ↦ elim (==-cases k j) [
      | inl (q, r) ↦
          let gone : contains j ks ≡ false = sym (ap (λ x. contains x ks) (p ∙ r)) ∙ h.0 in
          ground (arith, t, q, gone)
      | inr (q, r) ↦
          let apart : (i == j) ≡ false = ap (λ x. x == j) p ∙ q in ground (arith, t, q, apart)
    ]
    | inr (t, n) ↦
        ground (arith, t, e.beq_iff i k, e.beq_iff i j, e.beq_iff k j, contains-discard k j ks h.1)
  ]

  pub discard-IsDistinct : (k : K) (ks : List K) → IsDistinct ks → IsDistinct (discard k ks)
  unfolding discard
  discard-IsDistinct k [] h = tt
  discard-IsDistinct k (i ∷ ks) h =
      ground (arith, contains-discard k i ks h.1, discard-IsDistinct k ks h.1)

  pub contains-++ :
      (k : K) (xs ys : List K) → contains k (xs ++ ys) ≡ (contains k xs || contains k ys)
  unfolding contains
  contains-++ k [] ys = refl
  contains-++ k (x ∷ xs) ys = ground (arith, contains-++ k xs ys)
