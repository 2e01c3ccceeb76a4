-- ===== src/Ledger/Consumer.antt =====
-- services/ledger/consumer.py: the positions that a flush writes to the read model. The table is
-- PostgreSQL's, and stands here as an interface.
pub mod Mirror
mod Tests
use quant_arena.Prelude.{ℕ, ◌≡◌, Option, none, some, List, [], ◌∷◌, ◌==◌, pair_eq, if◌then◌else◌}
use quant_arena.Prelude.Int.{ℤ, pos, is_zero}
use quant_arena.Dict.{Dict, get_or}
use quant_arena.Ledger.{Ledger, take_dirty}

-- The table `positions`, as the flush uses it: a row is deleted by its user and symbol, and inserted
-- where there is none. (It has no unique key, so a second insert would be a second row.)
pub record PositionTable : Type 1 where
  pub Table : Type 0
  pub select : ℕ × ℕ → Table → Option ℤ
  pub delete : ℕ × ℕ → Table → Table
  pub insert_row : ℕ × ℕ → ℤ → Table → Table
  pub select-delete :
      (k j : ℕ × ℕ) (t : Table) → select j (delete k t) ≡ (if k == j then none else select j t)
  pub select-insert_row :
      (k j : ℕ × ℕ) (v : ℤ) (t : Table)
      → select k t ≡ none
      → select j (insert_row k v t) ≡ (if k == j then some v else select j t)

-- The list comprehension: what is back at zero has no row.
unfoldable pub position_rows : List (ℕ × ℕ) → Dict (ℕ × ℕ) ℤ → List ((ℕ × ℕ) × ℤ)
position_rows [] positions = []
position_rows (k ∷ dirty) positions =
    let rest = position_rows dirty positions in
    let qty = get_or k (pos 0) positions in if is_zero qty then rest else (k, qty) ∷ rest

module _ (db : PositionTable) where
  open db use {Table, delete, insert_row}

  unfoldable pub delete_all : List (ℕ × ℕ) → Table → Table
  delete_all [] t = t
  delete_all (k ∷ ks) t = delete_all ks (delete k t)

  unfoldable pub insert_all : List ((ℕ × ℕ) × ℤ) → Table → Table
  insert_all [] t = t
  insert_all ((k, v) ∷ rows) t = insert_all rows (insert_row k v t)

  -- `flush_to_db`, not `full`: the dirty rows are deleted, and those that are not zero inserted.
  unfoldable pub flush_positions : Ledger → Table → Table × Ledger
  unfolding delete_all insert_all
  flush_positions l t =
      let (dirty, l') = take_dirty l in
      (insert_all (position_rows dirty.positions l'.positions) (delete_all dirty.positions t), l')
