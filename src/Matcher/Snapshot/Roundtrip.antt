-- ===== src/Matcher/Snapshot/Roundtrip.antt =====
-- A snapshot is restored as it was taken.
use quant_arena.Prelude.{
  ℕ, zero, suc, ◌+◌, ◌*◌, ◌≡◌, refl, sym, ap, ◌∙◌, Bool, true, false, some, List, [], ◌∷◌, ◌++◌,
  not, ltb, ◌==◌, nat_eq, length, length-++, arith, inl, inr, Option-cases, ok,
}
use quant_arena.Prelude.Int.{ℤ, pos, ltb_ℤ, is_zero}
use quant_arena.Wire.Struct
use quant_arena.Wire.Struct.{calcsize, split_at, read}
use quant_arena.Wire.Struct.Laws.{read-pack, length-pack}
use quant_arena.Matcher.Snapshot.{
  SnapshotOrder, EngineSnapshot, magic, head_format, order_format, head_size, order_size, flag,
  fields, of_fields, place, sorted, pack_orders, pack, unpack_orders, unpack_head, unpack,
}

-- Ids rise strictly, above `previous` and below the next id.
abbrev pub Ascending : ℤ → ℤ → List SnapshotOrder → Type 0
Ascending previous next_order_id [] = Unit
Ascending previous next_order_id (o ∷ os) =
    (ltb_ℤ previous o.order_id ≡ true)
    × (ltb_ℤ o.order_id next_order_id ≡ true)
    × Ascending o.order_id next_order_id os

sorted-Ascending : (p n : ℤ) (os : List SnapshotOrder) → Ascending p n os → sorted os ≡ os
unfolding sorted place
sorted-Ascending p n [] h = refl
sorted-Ascending p n (o ∷ []) h = refl
sorted-Ascending p n (o ∷ q ∷ os) h =
    let later : sorted (q ∷ os) ≡ q ∷ os = sorted-Ascending o.order_id n (q ∷ os) h.2 in
    let behind : ltb_ℤ q.order_id o.order_id ≡ false = ground (arith, h.2.0) in
    ap (place o) later ∙ (rw behind refl)

unflag : (b : Bool) → not (is_zero (flag b)) ≡ b
unflag true = refl
unflag false = refl

of_fields-fields : (o : SnapshotOrder) → of_fields (fields o) ≡ some o
of_fields-fields o = ap (λ b. some (record o { indexed = b })) (unflag o.indexed)

pack_orders-cons :
    (o : SnapshotOrder) (os : List SnapshotOrder) (bs : List ℕ)
    → pack_orders (o ∷ os) ≡ some bs
    → (first : List ℕ) × (rest : List ℕ) × (Struct.pack order_format (fields o) ≡ some first)
      × (pack_orders os ≡ some rest)
      × (bs ≡ first ++ rest)
unfolding pack_orders
pack_orders-cons o os bs h = elim (Option-cases (Struct.pack order_format (fields o))) [
  | inl e ↦ absurd (ground (arith, e))
  | inr (first, e) ↦ elim (Option-cases (pack_orders os)) [
    | inl f ↦ absurd (ground (arith, e, f))
    | inr (rest, f) ↦ (first, rest, e, f, ground (arith, e, f))
  ]
]

length-pack_orders :
    (os : List SnapshotOrder) (bs : List ℕ)
    → pack_orders os ≡ some bs
    → length bs ≡ length os * order_size
unfolding length pack_orders
length-pack_orders [] bs h = ground arith
length-pack_orders (o ∷ os) bs h =
    let (first, rest, e, f, g) = pack_orders-cons o os bs h in
    let l : length first ≡ order_size =
      length-pack order_format (fields o) first e ∙ (unfold calcsize in refl) in
    rw g (omega (arith, length-++ first rest, l, length-pack_orders os rest f))

unpack_orders-pack_orders :
    (os : List SnapshotOrder) (count : ℕ) (p n : ℤ) (bs : List ℕ)
    → count ≡ length os
    → Ascending p n os
    → pack_orders os ≡ some bs
    → unpack_orders count p n bs ≡ ok os
unfolding unpack_orders length
unpack_orders-pack_orders [] zero p n bs c a h = refl
unpack_orders-pack_orders [] (suc count) p n bs c a h = absurd (omega (arith, c))
unpack_orders-pack_orders (o ∷ os) zero p n bs c a h = absurd (omega (arith, c))
unpack_orders-pack_orders (o ∷ os) (suc count) p n bs c a h =
    let (first, rest, e, f, g) = pack_orders-cons o os bs h in
    let r : read order_format bs ≡ some (fields o, rest) =
      ap (read order_format) g ∙ read-pack order_format (fields o) first rest e in
    let later = unpack_orders-pack_orders os count o.order_id n rest (omega (arith, c)) a.2 f in
    ground (arith, r, of_fields-fields o, later, a.0, a.1)

-- The parts of a snapshot, put together.
restored :
    (s : EngineSnapshot) (head body : List ℕ)
    → Ascending (pos 0) s.next_order_id s.orders
    → Struct.pack head_format (s.next_order_id ∷ pos (length s.orders) ∷ []) ≡ some head
    → pack_orders s.orders ≡ some body
    → unpack (magic ++ (head ++ body)) ≡ ok s
unfolding unpack split_at
restored s head body a e f =
    let bs : List ℕ = magic ++ (head ++ body) in
    let l : length head ≡ 12 = length-pack head_format _ head e ∙ (unfold calcsize in refl) in
    let total : length bs ≡ head_size + length s.orders * order_size =
      unfold length in omega (arith, l, length-++ head body, length-pack_orders s.orders body f) in
    let r : read head_format (head ++ body)
        ≡ some (s.next_order_id ∷ pos (length s.orders) ∷ [], body) =
      read-pack head_format _ head body e in
    let orders =
      unpack_orders-pack_orders s.orders (length s.orders) (pos 0) s.next_order_id body refl a f in
    let long : ltb (length bs) head_size ≡ false = ground (arith, total) in
    let fits : (length bs == head_size + length s.orders * order_size) ≡ true =
      (nat_eq.beq_iff (length bs) (head_size + length s.orders * order_size)).1 total in
    rw long (ap (unpack_head magic (length bs)) r ∙ (rw (fits, orders) refl))

-- A snapshot whose orders rise strictly in their ids, from 1 and below the next id, is read back
-- from the bytes that it packs to.
pub unpack-pack :
    (s : EngineSnapshot) (bs : List ℕ)
    → Ascending (pos 0) s.next_order_id s.orders
    → pack s ≡ some bs
    → unpack bs ≡ ok s
unfolding pack unpack
unpack-pack s bs a h =
    let ordered : sorted s.orders ≡ s.orders =
      sorted-Ascending (pos 0) s.next_order_id s.orders a in
    elim (Option-cases
      (Struct.pack head_format (s.next_order_id ∷ pos (length (sorted s.orders)) ∷ []))) [
        | inl e ↦ absurd (ground (arith, e))
        | inr (head, e) ↦ elim (Option-cases (pack_orders (sorted s.orders))) [
          | inl f ↦ absurd (ground (arith, e, f))
          | inr (body, f) ↦
              let whole : magic ++ (head ++ body) ≡ bs = ground (arith, e, f, h) in
              ap unpack (sym whole)
              ∙ (restored s head body a
                  (ap (λ os. Struct.pack head_format (s.next_order_id ∷ pos (length os) ∷ []))
                      (sym ordered)
                    ∙ e)
                  (ap pack_orders (sym ordered) ∙ f))
        ]
      ]
