-- ===== src/Dict.antt =====
-- Python's `dict` and `set`, in insertion order, and their laws. A key stands once in a dict of a
-- running program; `IsUnique` says so where a sum needs it.
pub mod Sums
pub mod Shift
pub mod Counts
pub mod Queues
pub mod Extremes
use mathlib.Core.Path.{subst}
use mathlib.Core.Option.{some-injective}
use quant_arena.Prelude.{
  ◌≡◌, refl, inl, inr, Bool, true, false, ◌||◌, Option, none, some, List, [], ◌∷◌, arith, Eq, ◌==◌,
  ==-cases, Bool-cases, if◌then◌else◌,
}

abbrev pub Dict {ℓ κ} : Type ℓ → Type κ → Type (ℓ ⊔ κ)
Dict K V = List (K × V)

abbrev pub values {ℓ κ} : {K : Type ℓ} {V : Type κ} → Dict K V → List V
values [] = []
values ((k, v) ∷ d) = v ∷ values d

abbrev pub keys {ℓ κ} : {K : Type ℓ} {V : Type κ} → Dict K V → List K
keys [] = []
keys ((k, v) ∷ d) = k ∷ keys d

-- Every entry of the dict satisfies `P`.
abbrev pub AllEntries {ℓ κ μ} : {K : Type ℓ} {V : Type κ} → (K → V → Type μ) → Dict K V → Type μ
AllEntries P [] = Unit
AllEntries P ((k, v) ∷ d) = P k v × AllEntries P d

module _ {ℓ κ} {K : Type ℓ} {V : Type κ} ⦃e : Eq K⦄ where
  -- `d.get(k)`
  unfoldable pub lookup : K → Dict K V → Option V
  lookup k [] = none
  lookup k ((j, v) ∷ d) = if j == k then some v else lookup k d

  -- `d.get(k, default)`
  unfoldable pub get_or : K → V → Dict K V → V
  get_or k v d = elim (lookup k d) [ none ↦ v | some w ↦ w ]

  -- `d[k] = v`: a key that is there keeps its place.
  unfoldable pub insert : K → V → Dict K V → Dict K V
  insert k v [] = (k, v) ∷ []
  insert k v ((j, w) ∷ d) = if j == k then (k, v) ∷ d else (j, w) ∷ insert k v d

  -- `d.pop(k, None)`, `del d[k]`
  unfoldable pub erase : K → Dict K V → Dict K V
  erase k [] = []
  erase k ((j, w) ∷ d) = let rest = erase k d in if j == k then rest else (j, w) ∷ rest

  -- `k in d`
  unfoldable pub has_key : K → Dict K V → Bool
  has_key k d = elim (lookup k d) [ none ↦ false | some w ↦ true ]

  abbrev pub IsUnique : Dict K V → Type κ
  IsUnique [] = Unit
  IsUnique ((k, v) ∷ d) = (lookup k d ≡ none) × IsUnique d

  pub lookup-insert :
      (k j : K) (v : V) (d : Dict K V)
      → lookup j (insert k v d) ≡ (if k == j then some v else lookup j d)
  unfolding lookup insert
  lookup-insert k j v [] = refl
  lookup-insert k j v ((i, w) ∷ d) =
      ground (arith, e.beq_iff k j, e.beq_iff i k, e.beq_iff i j, lookup-insert k j v d)

  pub lookup-erase :
      (k j : K) (d : Dict K V) → lookup j (erase k d) ≡ (if k == j then none else lookup j d)
  unfolding lookup erase
  lookup-erase k j [] = ground arith
  lookup-erase k j ((i, w) ∷ d) =
      ground (arith, e.beq_iff k j, e.beq_iff i k, e.beq_iff i j, lookup-erase k j d)

  pub get_or-insert :
      (k j : K) (v w : V) (d : Dict K V)
      → get_or j w (insert k v d) ≡ (if k == j then v else get_or j w d)
  unfolding get_or
  get_or-insert k j v w d = ground (arith, lookup-insert k j v d)

  pub get_or-erase :
      (k j : K) (w : V) (d : Dict K V)
      → get_or j w (erase k d) ≡ (if k == j then w else get_or j w d)
  unfolding get_or
  get_or-erase k j w d = ground (arith, lookup-erase k j d)

  pub insert-IsUnique : (k : K) (v : V) (d : Dict K V) → IsUnique d → IsUnique (insert k v d)
  unfolding insert
  insert-IsUnique k v [] h = (unfold lookup in refl, tt)
  insert-IsUnique k v ((i, w) ∷ d) h =
      ground (arith, e.beq_iff i k, e.beq_iff k i, insert-IsUnique k v d h.1, lookup-insert k i v d)

  pub erase-IsUnique : (k : K) (d : Dict K V) → IsUnique d → IsUnique (erase k d)
  unfolding erase
  erase-IsUnique k [] h = tt
  erase-IsUnique k ((i, w) ∷ d) h = ground (arith, erase-IsUnique k d h.1, lookup-erase k i d)

  -- A law of every entry holds of the entry that is found.
  pub AllEntries-lookup {μ} :
      (P : K → V → Type μ) (k : K) (v : V) (d : Dict K V)
      → AllEntries P d
      → lookup k d ≡ some v
      → P k v
  unfolding lookup
  AllEntries-lookup P k v [] h q = absurd (ground arith)
  AllEntries-lookup P k v ((i, w) ∷ d) h q = elim (==-cases i k) [
    | inl (t, p) ↦ subst (λ x. P x v) p (subst (P i) (some-injective w v (rw t at q)) h.0)
    | inr (t, n) ↦ AllEntries-lookup P k v d h.1 (rw t at q)
  ]

  pub AllEntries-insert {μ} :
      (P : K → V → Type μ) (k : K) (v : V) (d : Dict K V)
      → AllEntries P d
      → P k v
      → AllEntries P (insert k v d)
  unfolding insert
  AllEntries-insert P k v [] h p = (p, tt)
  AllEntries-insert P k v ((i, w) ∷ d) h p = elim (Bool-cases (i == k)) [
    | inl t ↦ rw t (p, h.1)
    | inr t ↦ rw t (h.0, AllEntries-insert P k v d h.1 p)
  ]

  pub AllEntries-erase {μ} :
      (P : K → V → Type μ) (k : K) (d : Dict K V) → AllEntries P d → AllEntries P (erase k d)
  unfolding erase
  AllEntries-erase P k [] h = tt
  AllEntries-erase P k ((i, w) ∷ d) h = elim (Bool-cases (i == k)) [
    | inl t ↦ rw t (AllEntries-erase P k d h.1)
    | inr t ↦ rw t (h.0, AllEntries-erase P k d h.1)
  ]

module _ {ℓ} {K : Type ℓ} ⦃e : Eq K⦄ where
  -- `k in s`, for a set held as a list.
  unfoldable pub contains : K → List K → Bool
  contains k [] = false
  contains k (j ∷ s) = j == k || contains k s

  -- `s.add(k)`
  unfoldable pub add : K → List K → List K
  unfolding contains
  add k s = if contains k s then s else k ∷ s

  pub contains-add :
      (k j : K) (s : List K) → contains j (add k s) ≡ (if k == j then true else contains j s)
  unfolding add
  contains-add k j s = elim (==-cases k j) [
    | inl (t, p) ↦ ground (arith, p)
    | inr (t, n) ↦ ground arith
  ]
