-- ===== src/Ledger/Account.antt =====
-- The account of one user, read off the stream: the ledger keeps exactly this.
use quant_arena.Prelude.{
  ℕ, ◌+◌, ◌*◌, ◌/◌, ◌≡◌, refl, ap, ◌∙◌, Bool, true, false, Option, some, String, List, [], ◌∷◌,
  ◌&&◌, ◌==◌, nat_eq, pair_eq, Bool-cases, inl, inr, if◌then◌else◌,
}
use quant_arena.Prelude.Int.{ℤ, pos, ◌+ℤ◌, ◌-ℤ◌, int_laws}
use quant_arena.Dict.{get_or, get_or-insert}
use quant_arena.Dict.Shift.{selected, get_or-shift}
use quant_arena.Contracts.{
  Fill, Record, account_created, cash_credited, order_accepted, order_cancelled, fill, ignored,
  StreamItem,
}
use quant_arena.Contracts.Side
use quant_arena.Ledger.{
  Ledger, settle, apply, apply_account_created, apply_cash_credited, apply_order_accepted,
  apply_order_cancelled, apply_fill, get_balance, get_position, calculate_fees, replay,
}

abbrev pub taker_buys : Fill → Bool
taker_buys f = f.aggressor_side == Side.buy

-- A number with the sign of a test, and with the other sign.
abbrev pub signed : Bool → ℕ → ℤ
signed true n = pos n
signed false n = pos 0 -ℤ pos n

abbrev negated : Bool → ℕ → ℤ
negated true n = pos 0 -ℤ pos n
negated false n = pos n

-- A fill's cash in a user's account. A taker that buys pays the price and one that sells is paid it, the
-- maker the other way round; both pay a fee of ten basis points
-- for the taker and of two for the maker, rounded down.
unfoldable pub cash_of_fill : ℕ → Fill → ℤ
cash_of_fill user f =
    let notional = f.price_ticks * f.qty in
    selected (f.taker_user_id == user)
      (negated (taker_buys f) notional -ℤ pos (notional * 10 / 10_000))
    +ℤ selected (f.maker_user_id == user)
        (signed (taker_buys f) notional -ℤ pos (notional * 2 / 10_000))

unfoldable pub units_of_fill : ℕ → ℕ → Fill → ℤ
units_of_fill user symbol f =
    selected (f.symbol_id == symbol && f.taker_user_id == user) (signed (taker_buys f) f.qty)
    +ℤ selected (f.symbol_id == symbol && f.maker_user_id == user) (negated (taker_buys f) f.qty)

-- A balance after a record: an account starts with its grant, and credits and fills move it.
unfoldable pub cash_after : ℕ → Record → ℤ → ℤ
cash_after user (account_created r) x = if r.user_id == user then r.initial_cash_ticks else x
cash_after user (cash_credited r) x = x +ℤ selected (r.user_id == user) r.amount_ticks
cash_after user (fill f) x = x +ℤ cash_of_fill user f
cash_after user _ x = x

unfoldable pub units_after : ℕ → ℕ → Record → ℤ → ℤ
units_after user symbol (fill f) x = x +ℤ units_of_fill user symbol f
units_after user symbol _ x = x

unfoldable pub cash_statement : ℕ → List StreamItem → ℤ → ℤ
cash_statement user [] x = x
cash_statement user (item ∷ items) x = cash_statement user items (cash_after user item.body x)

unfoldable pub units_statement : ℕ → ℕ → List StreamItem → ℤ → ℤ
units_statement user symbol [] x = x
units_statement user symbol (item ∷ items) x =
    units_statement user symbol items (units_after user symbol item.body x)

-- What a buyer and a seller pay and are paid, by who was the taker.
taker_bought :
    (x : ℤ) (a b : Bool) (n t m : ℕ)
    → x +ℤ selected a (pos 0 -ℤ pos (n + t)) +ℤ selected b (pos n -ℤ pos m)
      ≡ x +ℤ (selected a (negated true n -ℤ pos t) +ℤ selected b (signed true n -ℤ pos m))
taker_bought x true true n t m = omega int_laws
taker_bought x true false n t m = omega int_laws
taker_bought x false true n t m = omega int_laws
taker_bought x false false n t m = omega int_laws

taker_sold :
    (x : ℤ) (a b : Bool) (n t m : ℕ)
    → x +ℤ selected b (pos 0 -ℤ pos (n + m)) +ℤ selected a (pos n -ℤ pos t)
      ≡ x +ℤ (selected a (negated false n -ℤ pos t) +ℤ selected b (signed false n -ℤ pos m))
taker_sold x true true n t m = omega int_laws
taker_sold x true false n t m = omega int_laws
taker_sold x false true n t m = omega int_laws
taker_sold x false false n t m = omega int_laws

of_settle :
    (f : Fill) (user : ℕ) (x : ℤ)
    → x
        +ℤ selected ((settle f).buyer_id == user) (settle f).buyer_cash_delta
        +ℤ selected ((settle f).seller_id == user) (settle f).seller_cash_delta
      ≡ x +ℤ cash_of_fill user f
unfolding settle calculate_fees cash_of_fill
of_settle f user x =
    let n = f.price_ticks * f.qty in
    elim (Bool-cases (taker_buys f)) [
      | inl t ↦ rw t (
          taker_bought x (f.taker_user_id == user) (f.maker_user_id == user) n (n * 10 / 10_000)
            (n * 2 / 10_000))
      | inr t ↦ rw t (
          taker_sold x (f.taker_user_id == user) (f.maker_user_id == user) n (n * 10 / 10_000)
            (n * 2 / 10_000))
    ]

get_balance-fill :
    (f : Fill) (id : Option String) (l : Ledger) (user : ℕ)
    → get_balance (apply (fill f) id l) user ≡ get_balance l user +ℤ cash_of_fill user f
unfolding apply apply_fill get_balance
get_balance-fill f id l user =
    simp get_or-shift (of_settle f user (get_or user (pos 0) l.cash_balances))

units_moved :
    (x : ℤ) (a b s t : Bool) (n : ℕ)
    → x
        +ℤ selected ((if t then a else b) && s) (pos n)
        +ℤ selected ((if t then b else a) && s) (pos 0 -ℤ pos n)
      ≡ x +ℤ (selected (s && a) (signed t n) +ℤ selected (s && b) (negated t n))
units_moved x a b s t n = grind int_laws

units_of_settle :
    (f : Fill) (user symbol : ℕ) (x : ℤ)
    → let key : ℕ × ℕ = (user, symbol) in
      let buyer_key : ℕ × ℕ = ((settle f).buyer_id, f.symbol_id) in
      let seller_key : ℕ × ℕ = ((settle f).seller_id, f.symbol_id) in
      x
        +ℤ selected (buyer_key == key) (pos f.qty)
        +ℤ selected (seller_key == key) (pos 0 -ℤ pos f.qty)
      ≡ x +ℤ units_of_fill user symbol f
unfolding settle units_of_fill
units_of_settle f user symbol x =
    let units =
      units_moved x (f.taker_user_id == user) (f.maker_user_id == user) (f.symbol_id == symbol) in
    elim (Bool-cases (taker_buys f)) [
      | inl t ↦ rw t (units true f.qty)
      | inr t ↦ rw t (units false f.qty)
    ]

get_position-fill :
    (f : Fill) (id : Option String) (l : Ledger) (user symbol : ℕ)
    → get_position (apply (fill f) id l) user symbol
      ≡ get_position l user symbol +ℤ units_of_fill user symbol f
unfolding apply apply_fill get_position
get_position-fill f id l user symbol =
    simp get_or-shift (units_of_settle f user symbol (get_or (user, symbol) (pos 0) l.positions))

get_balance-apply :
    (r : Record) (id : Option String) (l : Ledger) (user : ℕ)
    → get_balance (apply r id l) user ≡ cash_after user r (get_balance l user)
unfolding cash_after apply apply_account_created apply_cash_credited apply_order_accepted
    apply_order_cancelled get_balance
get_balance-apply (account_created r) id l user =
    get_or-insert r.user_id user r.initial_cash_ticks (pos 0) l.cash_balances
get_balance-apply (cash_credited r) id l user =
    get_or-shift r.user_id user r.amount_ticks l.cash_balances
get_balance-apply (order_accepted r) id l user = refl
get_balance-apply (order_cancelled r) id l user = refl
get_balance-apply (fill f) id l user = get_balance-fill f id l user
get_balance-apply ignored id l user = refl

get_position-apply :
    (r : Record) (id : Option String) (l : Ledger) (user symbol : ℕ)
    → get_position (apply r id l) user symbol
      ≡ units_after user symbol r (get_position l user symbol)
unfolding units_after apply apply_account_created apply_cash_credited apply_order_accepted
    apply_order_cancelled get_position
get_position-apply (account_created r) id l user symbol = refl
get_position-apply (cash_credited r) id l user symbol = refl
get_position-apply (order_accepted r) id l user symbol = refl
get_position-apply (order_cancelled r) id l user symbol = refl
get_position-apply (fill f) id l user symbol = get_position-fill f id l user symbol
get_position-apply ignored id l user symbol = refl

-- After any stream a user's balance is the user's statement: what it was, or the last grant, then every
-- credit, and for every fill the price, which the taker pays if the aggressor buys and is paid if it
-- sells, and the maker the other way round, less ten basis points for the taker and two for the maker,
-- each rounded down.
pub get_balance-replay :
    (items : List StreamItem) (l : Ledger) (user : ℕ)
    → get_balance (replay items l) user ≡ cash_statement user items (get_balance l user)
unfolding replay cash_statement
get_balance-replay [] l user = refl
get_balance-replay (item ∷ items) l user =
    get_balance-replay items (apply item.body (some item.stream_id) l) user
    ∙ ap (cash_statement user items) (get_balance-apply item.body (some item.stream_id) l user)

-- After any stream a user's position in a symbol is what it was, and for every fill in the symbol its
-- quantity: the taker gets it if the aggressor buys and gives it if it sells, and the maker the other
-- way round.
pub get_position-replay :
    (items : List StreamItem) (l : Ledger) (user symbol : ℕ)
    → get_position (replay items l) user symbol
      ≡ units_statement user symbol items (get_position l user symbol)
unfolding replay units_statement
get_position-replay [] l user symbol = refl
get_position-replay (item ∷ items) l user symbol =
    get_position-replay items (apply item.body (some item.stream_id) l) user symbol
    ∙ ap (units_statement user symbol items)
        (get_position-apply item.body (some item.stream_id) l user symbol)
