-- ===== src/Ledger/Consumer/Mirror.antt =====
-- The table of positions mirrors the ledger after every flush.
use quant_arena.Prelude.{
  ℕ, ◌≡◌, refl, sym, ◌∙◌, ap, true, false, Option, none, some, List, [], ◌∷◌, pair_eq, nat_eq,
  arith, inl, inr, Bool-cases, ==-cases, if◌then◌else◌,
}
use quant_arena.Prelude.Int.{ℤ, pos, is_zero}
use quant_arena.Dict.{Dict, lookup, get_or, contains, add}
use quant_arena.Contracts.{
  Record, account_created, cash_credited, order_accepted, order_cancelled, fill, ignored,
  StreamItem,
}
use quant_arena.Ledger.{
  Ledger, settle, take_dirty, apply_account_created, apply_cash_credited, apply_order_accepted,
  apply_order_cancelled, apply_fill, dispatch, apply, replay,
}
use quant_arena.Ledger.Unmarked.{unmarked, lookup-shift_other}
use quant_arena.Ledger.Consumer.{
  PositionTable, position_rows, delete_all, insert_all, flush_positions,
}

-- No key twice.
unfoldable pub IsDistinct : List (ℕ × ℕ) → Type 0
IsDistinct [] = Unit
IsDistinct (k ∷ ks) = (contains k ks ≡ false) × IsDistinct ks

add-IsDistinct : (k : ℕ × ℕ) (ks : List (ℕ × ℕ)) → IsDistinct ks → IsDistinct (add k ks)
unfolding add IsDistinct
add-IsDistinct k ks h = elim (Bool-cases (contains k ks)) [
  | inl t ↦ simp t h
  | inr t ↦ simp t (refl, h)
]

dispatch-IsDistinct :
    (r : Record) (l : Ledger)
    → IsDistinct l.dirty_positions
    → IsDistinct (dispatch r l).dirty_positions
unfolding dispatch apply_account_created apply_cash_credited apply_order_accepted
    apply_order_cancelled apply_fill
dispatch-IsDistinct (account_created r) l h = h
dispatch-IsDistinct (cash_credited r) l h = h
dispatch-IsDistinct (order_accepted r) l h = h
dispatch-IsDistinct (order_cancelled r) l h = h
dispatch-IsDistinct (fill r) l h = add-IsDistinct _ _ (add-IsDistinct _ _ h)
dispatch-IsDistinct ignored l h = h

replay-IsDistinct :
    (items : List StreamItem) (l : Ledger)
    → IsDistinct l.dirty_positions
    → IsDistinct (replay items l).dirty_positions
unfolding replay apply
replay-IsDistinct [] l h = h
replay-IsDistinct (item ∷ items) l h = replay-IsDistinct items _ (dispatch-IsDistinct item.body _ h)

-- The position of `key` is untouched as long as it is not marked.
IsKept : ℕ × ℕ → Ledger → Ledger → Type 0
IsKept key l m =
    (contains key m.dirty_positions ≡ false) × (lookup key l.positions ≡ lookup key m.positions)

dispatch-IsKept :
    (r : Record) (key : ℕ × ℕ) (l : Ledger)
    → contains key (dispatch r l).dirty_positions ≡ false
    → IsKept key (dispatch r l) l
unfolding dispatch apply_account_created apply_cash_credited apply_order_accepted
    apply_order_cancelled apply_fill IsKept
dispatch-IsKept (account_created r) key l h = (h, refl)
dispatch-IsKept (cash_credited r) key l h = (h, refl)
dispatch-IsKept (order_accepted r) key l h = (h, refl)
dispatch-IsKept (order_cancelled r) key l h = (h, refl)
dispatch-IsKept (fill r) key l h =
    let s = settle r in
    let buyer_key : ℕ × ℕ = (s.buyer_id, r.symbol_id) in
    let seller_key : ℕ × ℕ = (s.seller_id, r.symbol_id) in
    let sold = unmarked seller_key key (add buyer_key l.dirty_positions) h in
    let bought = unmarked buyer_key key l.dirty_positions sold.1 in
    (bought.1, lookup-shift_other _ _ _ _ sold.0 ∙ lookup-shift_other _ _ _ _ bought.0)
dispatch-IsKept ignored key l h = (h, refl)

replay-IsKept :
    (items : List StreamItem) (key : ℕ × ℕ) (l : Ledger)
    → contains key (replay items l).dirty_positions ≡ false
    → IsKept key (replay items l) l
unfolding replay apply IsKept
replay-IsKept [] key l h = (h, refl)
replay-IsKept (item ∷ items) key l h =
    let later = replay-IsKept items key _ h in
    let now = dispatch-IsKept item.body key _ later.0 in (now.0, later.1 ∙ now.1)

kept_position :
    (items : List StreamItem) (key : ℕ × ℕ) (l : Ledger)
    → contains key (replay items (take_dirty l).1).dirty_positions ≡ false
    → lookup key (replay items (take_dirty l).1).positions ≡ lookup key l.positions
unfolding take_dirty IsKept
kept_position items key l h = (replay-IsKept items key _ h).1

get_or-lookup :
    (k : ℕ × ℕ) (d c : Dict (ℕ × ℕ) ℤ)
    → lookup k d ≡ lookup k c
    → get_or k (pos 0) d ≡ get_or k (pos 0) c
unfolding get_or
get_or-lookup k d c h = ground (arith, h)

-- The row that a quantity has.
abbrev pub row_of : ℤ → Option ℤ
row_of qty = if is_zero qty then none else some qty

module _ (db : PositionTable) where
  open db use {Table, select, select-delete, select-insert_row}

  select-delete_all :
      (ks : List (ℕ × ℕ)) (j : ℕ × ℕ) (t : Table)
      → select j (delete_all db ks t) ≡ (if contains j ks then none else select j t)
  unfolding delete_all contains
  select-delete_all [] j t = refl
  select-delete_all (k ∷ ks) j t =
      ground (arith, select-delete_all ks j (db.delete k t), select-delete k j t)

  -- The rows that are still to come have none in the table.
  others_absent :
      (k : ℕ × ℕ) (ks : List (ℕ × ℕ)) (v : ℤ) (t : Table)
      → contains k ks ≡ false
      → ((i : ℕ × ℕ) → contains i (k ∷ ks) ≡ true → select i t ≡ none)
      → (i : ℕ × ℕ) → contains i ks ≡ true
      → select i (db.insert_row k v t) ≡ none
  unfolding contains
  others_absent k ks v t n h i c =
      let absent : select k t ≡ none = h k (ground arith) in
      let same : select i t ≡ none = h i (ground (arith, c)) in
      elim (==-cases k i) [
        | inl (q, e) ↦ absurd (cc (n, c, ap (λ x. contains x ks) e))
        | inr (q, m) ↦ select-insert_row k i v t absent ∙ (rw q same)
      ]

  select-insert_all :
      (ks : List (ℕ × ℕ)) (d : Dict (ℕ × ℕ) ℤ) (j : ℕ × ℕ) (t : Table)
      → IsDistinct ks
      → ((k : ℕ × ℕ) → contains k ks ≡ true → select k t ≡ none)
      → select j (insert_all db (position_rows ks d) t)
        ≡ (if contains j ks then row_of (get_or j (pos 0) d) else select j t)
  unfolding insert_all position_rows contains IsDistinct
  select-insert_all [] d j t u h = refl
  select-insert_all (k ∷ ks) d j t u h =
      let qty = get_or k (pos 0) d in
      let absent : select k t ≡ none = h k (ground arith) in
      elim (Bool-cases (is_zero qty)) [
        | inl z ↦
            let later = select-insert_all ks d j t u.1 (λ i c. h i (ground (arith, c))) in
            elim (==-cases k j) [
              | inl (q, e) ↦
                  let gone : contains j ks ≡ false = sym (ap (λ x. contains x ks) e) ∙ u.0 in
                  let zj : is_zero (get_or j (pos 0) d) ≡ true =
                    sym (ap (λ x. is_zero (get_or x (pos 0) d)) e) ∙ z in
                  let none_j : select j t ≡ none = h j (ground (arith, q)) in
                  simp (z, q, zj) (later ∙ (simp gone none_j))
              | inr (q, m) ↦ simp z (simp q later)
            ]
        | inr z ↦
            let t' = db.insert_row k qty t in
            let later = select-insert_all ks d j t' u.1 (others_absent k ks qty t u.0 h) in
            let now = select-insert_row k j qty t absent in
            elim (==-cases k j) [
              | inl (q, e) ↦
                  let gone : contains j ks ≡ false = sym (ap (λ x. contains x ks) e) ∙ u.0 in
                  let qj : qty ≡ get_or j (pos 0) d = ap (λ x. get_or x (pos 0) d) e in
                  let zj : is_zero (get_or j (pos 0) d) ≡ false =
                    sym (ap (λ x. is_zero (get_or x (pos 0) d)) e) ∙ z in
                  let row : select j t' ≡ some (get_or j (pos 0) d) = now ∙ (simp q (ap some qj)) in
                  simp (z, q, zj) (later ∙ (simp gone row))
              | inr (q, m) ↦
                  let kept : select j t' ≡ select j t = now ∙ (simp q refl) in
                  simp z (
                    simp q (
                      later
                      ∙ ap (λ x. if contains j ks then row_of (get_or j (pos 0) d) else x) kept))
            ]
      ]

  -- If the table mirrors the ledger when its dirty sets are taken, then after any records the next
  -- flush makes it mirror the ledger again: each position that is not zero has its row, with its
  -- quantity, and no other position has one.
  pub flush_mirrors :
      (items : List StreamItem) (l : Ledger) (t : Table)
      → ((k : ℕ × ℕ) → select k t ≡ row_of (get_or k (pos 0) l.positions))
      → (k : ℕ × ℕ)
      → let m = replay items (take_dirty l).1 in
        select k (flush_positions db m t).0 ≡ row_of (get_or k (pos 0) m.positions)
  unfolding flush_positions take_dirty
  flush_mirrors items l t h k =
      let taken = (take_dirty l).1 in
      let m = replay items taken in
      let dirty = m.dirty_positions in
      let distinct = replay-IsDistinct items taken (unfold IsDistinct in tt) in
      let cleared : (i : ℕ × ℕ)
          → contains i dirty ≡ true
          → select i (delete_all db dirty t) ≡ none =
        λ i c. select-delete_all dirty i t ∙ (simp c refl) in
      let rows = select-insert_all dirty m.positions k (delete_all db dirty t) distinct cleared in
      elim (Bool-cases (contains k dirty)) [
        | inl c ↦ rows ∙ (simp c refl)
        | inr c ↦
            let kept : lookup k m.positions ≡ lookup k l.positions = kept_position items k l c in
            let same : get_or k (pos 0) m.positions ≡ get_or k (pos 0) l.positions =
              get_or-lookup k m.positions l.positions kept in
            let left : select k (delete_all db dirty t) ≡ select k t =
              select-delete_all dirty k t ∙ (simp c refl) in
            let read : select k
                  (insert_all db (position_rows dirty m.positions) (delete_all db dirty t))
                ≡ select k (delete_all db dirty t) =
              rows ∙ (simp c refl) in
            read ∙ left ∙ h k ∙ sym (ap row_of same)
      ]
