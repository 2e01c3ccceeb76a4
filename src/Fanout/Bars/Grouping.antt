-- ===== src/Fanout/Bars/Grouping.antt =====
-- Bars summarise the prints of one bucket: what a builder produces is a function of the trades.
use quant_arena.Prelude.{
  ℕ, ◌+◌, min, max, ◌≡◌, ◌≢◌, refl, sym, ap, ◌∙◌, none, some, List, [], ◌∷◌, ◌++◌, map, arith, ◌==◌,
  nat_eq, if◌then◌else◌, inl, inr, ==-cases,
}
use mathlib.Core.List.{append_assoc}
use quant_arena.Fanout.Bars.{Bar, BarBuilder, Print, extend, bucket_start, open_bar, add_to, add}

pub highest : ℕ → List Print → ℕ
highest m [] = m
highest m (q ∷ qs) = max q.price_ticks (highest m qs)

pub lowest : ℕ → List Print → ℕ
lowest m [] = m
lowest m (q ∷ qs) = min q.price_ticks (lowest m qs)

pub last_price : ℕ → List Print → ℕ
last_price m [] = m
last_price m (q ∷ qs) = last_price q.price_ticks qs

pub total_qty : List Print → ℕ
total_qty [] = 0
total_qty (q ∷ qs) = q.qty + total_qty qs

-- A bucket's prints: the first and those that followed.
abbrev pub Group : Type 0
Group = Print × List Print

-- What a candle means: first, highest, lowest and last price, and the total quantity.
pub bar_of : BarBuilder → Group → Bar
unfolding highest lowest last_price total_qty
bar_of b (p, qs) = record {
  symbol_id = b.symbol_id;
  bucket_seconds = b.bucket_seconds;
  bar_open_ns = bucket_start p.timestamp_ns b;
  open_ticks = p.price_ticks;
  high_ticks = highest p.price_ticks qs;
  low_ticks = lowest p.price_ticks qs;
  close_ticks = last_price p.price_ticks qs;
  volume = p.qty + total_qty qs;
}

-- A print joins the group that follows it if they share a bucket.
pub attach : BarBuilder → Print → List Group → List Group
attach b p [] = (p, []) ∷ []
attach b p ((q, qs) ∷ gs) =
    if bucket_start p.timestamp_ns b == bucket_start q.timestamp_ns b
    then (p, q ∷ qs) ∷ gs
    else (p, []) ∷ (q, qs) ∷ gs

-- Consecutive prints of one bucket, together.
pub groups : BarBuilder → List Print → List Group
unfolding attach
groups b [] = []
groups b (p ∷ ps) = attach b p (groups b ps)

unfoldable pub add_prints : List Print → BarBuilder → BarBuilder
add_prints [] b = b
add_prints (p ∷ ps) b = add_prints ps (add p b).1

highest-snoc :
    (m : ℕ) (qs : List Print) (t : Print)
    → highest m (qs ++ (t ∷ [])) ≡ max (highest m qs) t.price_ticks
unfolding highest
highest-snoc m [] t = omega arith
highest-snoc m (q ∷ qs) t = omega (arith, highest-snoc m qs t)

lowest-snoc :
    (m : ℕ) (qs : List Print) (t : Print)
    → lowest m (qs ++ (t ∷ [])) ≡ min (lowest m qs) t.price_ticks
unfolding lowest
lowest-snoc m [] t = omega arith
lowest-snoc m (q ∷ qs) t = omega (arith, lowest-snoc m qs t)

last_price-snoc :
    (m : ℕ) (qs : List Print) (t : Print) → last_price m (qs ++ (t ∷ [])) ≡ t.price_ticks
unfolding last_price
last_price-snoc m [] t = refl
last_price-snoc m (q ∷ qs) t = last_price-snoc q.price_ticks qs t

total_qty-snoc : (qs : List Print) (t : Print) → total_qty (qs ++ (t ∷ [])) ≡ total_qty qs + t.qty
unfolding total_qty
total_qty-snoc [] t = omega arith
total_qty-snoc (q ∷ qs) t = omega (arith, total_qty-snoc qs t)

-- One more print of the bucket extends its bar.
extend-bar_of :
    (b : BarBuilder) (p : Print) (qs : List Print) (t : Print)
    → extend t.price_ticks t.qty (bar_of b (p, qs)) ≡ bar_of b (p, qs ++ (t ∷ []))
unfolding extend bar_of
extend-bar_of b p qs t = cc (
  highest-snoc p.price_ticks qs t,
  lowest-snoc p.price_ticks qs t,
  last_price-snoc p.price_ticks qs t,
  let e : p.qty + total_qty qs + t.qty ≡ p.qty + total_qty (qs ++ (t ∷ [])) =
        omega (arith, total_qty-snoc qs t) in
      e,
)

open_bar-bar_of : (b : BarBuilder) (p : Print) → open_bar p b ≡ bar_of b (p, [])
unfolding open_bar bar_of
open_bar-bar_of b p = let e : p.qty ≡ p.qty + 0 = omega arith in cc e

-- What a builder has produced, with the bar that is still open.
unfoldable pub bars : BarBuilder → List Bar
bars b = b.closed ++ (elim b.current [ none ↦ [] | some c ↦ c ∷ [] ])

-- A group that is open, before the groups that follow.
join : BarBuilder → Group → List Group → List Group
join b (p, ps) [] = (p, ps) ∷ []
join b (p, ps) ((q, qs) ∷ gs) =
    if bucket_start p.timestamp_ns b == bucket_start q.timestamp_ns b
    then (p, ps ++ (q ∷ qs)) ∷ gs
    else (p, ps) ∷ (q, qs) ∷ gs

join-attach_same :
    (b : BarBuilder) (p t : Print) (ps : List Print) (gs : List Group)
    → bucket_start t.timestamp_ns b ≡ bucket_start p.timestamp_ns b
    → join b (p, ps) (attach b t gs) ≡ join b (p, ps ++ (t ∷ [])) gs
unfolding join attach
join-attach_same b p t ps [] h = ground arith
join-attach_same b p t ps ((q, qs) ∷ gs) h = ground (arith, append_assoc ps (t ∷ []) (q ∷ qs))

join-attach_new :
    (b : BarBuilder) (p t : Print) (ps : List Print) (gs : List Group)
    → bucket_start t.timestamp_ns b ≢ bucket_start p.timestamp_ns b
    → join b (p, ps) (attach b t gs) ≡ (p, ps) ∷ join b (t, []) gs
unfolding join attach
join-attach_new b p t ps [] h = ground arith
join-attach_new b p t ps ((q, qs) ∷ gs) h = ground arith

-- A builder whose open bar summarises a group.
abbrev at_group : BarBuilder → List Bar → Group → BarBuilder
at_group b cs g = record b { current = some (bar_of b g); closed = cs }

bar_open_ns-bar_of :
    (b : BarBuilder) (g : Group) → (bar_of b g).bar_open_ns ≡ bucket_start g.0.timestamp_ns b
unfolding bar_of
bar_open_ns-bar_of b (p, qs) = refl

bucket_start-at_group :
    (b : BarBuilder) (cs : List Bar) (g : Group) (t : ℕ)
    → bucket_start t (at_group b cs g) ≡ bucket_start t b
unfolding bucket_start
bucket_start-at_group b cs g t = refl

open_bar-at_group :
    (b : BarBuilder) (cs : List Bar) (g : Group) (t : Print)
    → open_bar t (at_group b cs g) ≡ bar_of b (t, [])
unfolding bar_of open_bar bucket_start
open_bar-at_group b cs g t = open_bar-bar_of b t

add-extends :
    (c : Bar) (t : Print) (b : BarBuilder)
    → bucket_start t.timestamp_ns b ≡ c.bar_open_ns
    → (add_to (some c) t b).1 ≡ record b { current = some (extend t.price_ticks t.qty c) }
unfolding add_to
add-extends c t b h = ground arith

add-closes :
    (c : Bar) (t : Print) (b : BarBuilder)
    → bucket_start t.timestamp_ns b ≢ c.bar_open_ns
    → (add_to (some c) t b).1
      ≡ record b { current = some (open_bar t b); closed = b.closed ++ (c ∷ []) }
unfolding add_to
add-closes c t b h = ground arith

add-same :
    (b : BarBuilder) (cs : List Bar) (p t : Print) (qs : List Print)
    → bucket_start t.timestamp_ns b ≡ bucket_start p.timestamp_ns b
    → (add t (at_group b cs (p, qs))).1 ≡ at_group b cs (p, qs ++ (t ∷ []))
unfolding add
add-same b cs p t qs h =
    let s = at_group b cs (p, qs) in
    add-extends (bar_of b (p, qs)) t s
      (bucket_start-at_group b cs (p, qs) t.timestamp_ns ∙ h ∙ sym (bar_open_ns-bar_of b (p, qs)))
    ∙ ap (λ (c : Bar). record b { current = some c; closed = cs }) (extend-bar_of b p qs t)

add-new :
    (b : BarBuilder) (cs : List Bar) (p t : Print) (qs : List Print)
    → bucket_start t.timestamp_ns b ≢ bucket_start p.timestamp_ns b
    → (add t (at_group b cs (p, qs))).1 ≡ at_group b (cs ++ (bar_of b (p, qs) ∷ [])) (t, [])
unfolding add
add-new b cs p t qs h =
    let s = at_group b cs (p, qs) in
    add-closes (bar_of b (p, qs)) t s (λ e.
      h (
        sym (bucket_start-at_group b cs (p, qs) t.timestamp_ns) ∙ e ∙ bar_open_ns-bar_of b (p, qs)))
    ∙ ap (λ (c : Bar). record b { current = some c; closed = cs ++ (bar_of b (p, qs) ∷ []) })
        (open_bar-at_group b cs (p, qs) t)

bars-from :
    (b : BarBuilder) (cs : List Bar) (p : Print) (qs ts : List Print)
    → bars (add_prints ts (at_group b cs (p, qs)))
      ≡ cs ++ map (bar_of b) (join b (p, qs) (groups b ts))
unfolding bars add_prints groups
bars-from b cs p qs [] = unfold join in refl
bars-from b cs p qs (t ∷ ts) =
    elim (==-cases (bucket_start t.timestamp_ns b) (bucket_start p.timestamp_ns b)) [
      | inl (h, e) ↦
          ap (λ s. bars (add_prints ts s)) (add-same b cs p t qs e)
          ∙ bars-from b cs p (qs ++ (t ∷ [])) ts
          ∙ ap (λ gs. cs ++ map (bar_of b) gs) (sym (join-attach_same b p t qs (groups b ts) e))
      | inr (h, n) ↦
          ap (λ s. bars (add_prints ts s)) (add-new b cs p t qs n)
          ∙ bars-from b (cs ++ (bar_of b (p, qs) ∷ [])) t [] ts
          ∙ append_assoc cs (bar_of b (p, qs) ∷ []) _
          ∙ ap (λ gs. cs ++ map (bar_of b) gs) (sym (join-attach_new b p t qs (groups b ts) n))
    ]

join-groups :
    (b : BarBuilder) (p : Print) (ts : List Print)
    → join b (p, []) (groups b ts) ≡ groups b (p ∷ ts)
unfolding groups
join-groups b p ts = go (groups b ts)
  where
    go : (gs : List Group) → join b (p, []) gs ≡ attach b p gs
    go [] = unfold join attach in refl
    go ((q, qs) ∷ gs) = unfold join attach in refl

-- A builder without trades yet.
abbrev pub fresh : BarBuilder → BarBuilder
fresh b = record b { current = none; closed = [] }

first_add : (b : BarBuilder) (p : Print) → (add p (fresh b)).1 ≡ at_group b [] (p, [])
unfolding add add_to
first_add b p =
    ap (λ (c : Bar). record b { current = some c; closed = [] })
      (unfold open_bar bucket_start bar_of in open_bar-bar_of b p)

-- The bars that a new builder has produced after any trades, with the one that is still open, are
-- exactly the summaries of the maximal runs of trades that share a bucket, in order.
pub bars-add_prints :
    (b : BarBuilder) (ps : List Print)
    → bars (add_prints ps (fresh b)) ≡ map (bar_of b) (groups b ps)
unfolding bars add_prints groups
bars-add_prints b [] = refl
bars-add_prints b (p ∷ ps) =
    ap (λ s. bars (add_prints ps s)) (first_add b p)
    ∙ bars-from b [] p [] ps
    ∙ ap (map (bar_of b)) (join-groups b p ps)
