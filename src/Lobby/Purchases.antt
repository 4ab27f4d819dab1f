-- ===== src/Lobby/Purchases.antt =====
-- What a client gets for its money.
use chess_games.Prelude.{
  Bool, Option, ap, arith, false, if◌then◌else◌, inl, inr, not, refl, some, subst, sym, true, ℕ,
  ◌+◌, ◌<◌, ◌∙◌, ◌≡◌, ◌≢◌, ◌⊎◌,
}
use chess_games.Prelude.Int.{
  eqb_ℤ, int_laws, ltb_ℤ, neg_part, neg_ℤ, negsuc, pos, pos_part, ℤ, ◌*ℤ◌, ◌+ℤ◌, ◌-ℤ◌, ◌≤ℤ◌,
}
use chess_games.Lobby.Clients.{Client, ClientManager, set_client}
use chess_games.Lobby.Money.{
  GoldShopInfo, add_money, add_money1, bought, enough_money, exchange, exchange_by, exchange_of,
  not_below_0,
}
use chess_games.FastMap.{find}
use chess_games.Lobby.Admitted.{write-same}

times_minus_1 : (d : ℤ) → d *ℤ negsuc 0 ≡ neg_ℤ d
unfolding ◌*ℤ◌ neg_ℤ
times_minus_1 d = ground arith

zero-parts : (n : ℤ) → eqb_ℤ n (pos 0) ≡ true → pos_part n ≡ neg_part n
zero-parts n e = ground (arith, e)

plus-none : (a n : ℤ) → eqb_ℤ n (pos 0) ≡ true → a ≡ a +ℤ n
plus-none a n e = omega (int_laws, zero-parts n e)

not_below_0-same : (n : ℤ) → pos 0 ≤ℤ n → not_below_0 n ≡ n
not_below_0-same n h = ground (arith, h)

sum-le : (a b : ℤ) → pos 0 ≤ℤ a → pos 0 ≤ℤ b → pos 0 ≤ℤ a +ℤ b
sum-le a b h k = omega (int_laws, h, k)

pub add_money-money : (n : ℤ) (c : Client) → (add_money n c).money ≡ c.money +ℤ n
unfolding add_money
add_money-money n c = at_zero (eqb_ℤ n (pos 0)) refl
  where
    at_zero :
        (b : Bool)
        → eqb_ℤ n (pos 0) ≡ b
        → (if b then c else record c { money = c.money +ℤ n }).money ≡ c.money +ℤ n
    at_zero true e = plus-none c.money n e
    at_zero false e = refl

add_money-money1 : (n : ℤ) (c : Client) → (add_money n c).money1 ≡ c.money1
unfolding add_money
add_money-money1 n c = at_zero (eqb_ℤ n (pos 0))
  where
    at_zero : (b : Bool) → (if b then c else record c { money = c.money +ℤ n }).money1 ≡ c.money1
    at_zero true = refl
    at_zero false = refl

add_money1-money : (n : ℤ) (c : Client) → (add_money1 n c).money ≡ c.money
unfolding add_money1
add_money1-money n c = at_zero (eqb_ℤ n (pos 0))
  where
    at_zero :
        (b : Bool)
        → (if b then c else record c { money1 = not_below_0 (c.money1 +ℤ n) }).money ≡ c.money
    at_zero true = refl
    at_zero false = refl

add_money1-money1 :
    (n : ℤ) (c : Client) → pos 0 ≤ℤ n → pos 0 ≤ℤ c.money1 → (add_money1 n c).money1 ≡ c.money1 +ℤ n
unfolding add_money1
add_money1-money1 n c h k = at_zero (eqb_ℤ n (pos 0)) refl
  where
    at_zero :
        (b : Bool)
        → eqb_ℤ n (pos 0) ≡ b
        → (if b then c else record c { money1 = not_below_0 (c.money1 +ℤ n) }).money1
          ≡ c.money1 +ℤ n
    at_zero true e = plus-none c.money1 n e
    at_zero false e = not_below_0-same (c.money1 +ℤ n) (sum-le c.money1 n k h)

-- What the client pays and gets.
abbrev pub IsBought : GoldShopInfo → Client → Client → Type 0
IsBought g c next = (next.money ≡ c.money -ℤ g.diamond) × (next.money1 ≡ c.money1 +ℤ g.money)

minus-times : (a d : ℤ) → a +ℤ d *ℤ negsuc 0 ≡ a -ℤ d
minus-times a d = ap (λ e. a +ℤ e) (times_minus_1 d) ∙ omega int_laws

bought-IsBought :
    (g : GoldShopInfo) (c : Client)
    → pos 0 ≤ℤ g.money
    → pos 0 ≤ℤ c.money1
    → IsBought g c (bought g c)
bought-IsBought g c h k = at_zero (eqb_ℤ g.money (pos 0)) refl
  where
    payed : Client
    payed = add_money (g.diamond *ℤ negsuc 0) c

    at_zero :
        (b : Bool)
        → eqb_ℤ g.money (pos 0) ≡ b
        → IsBought g c (
            if not b
            then add_money1 g.money (add_money (g.diamond *ℤ negsuc 0) c)
            else add_money (g.diamond *ℤ negsuc 0) c)
    at_zero true e = (
      add_money-money _ c ∙ minus-times c.money g.diamond,
      add_money-money1 _ c ∙ plus-none c.money1 g.money e,
    )
    at_zero false e = (
      add_money1-money g.money _ ∙ add_money-money _ c ∙ minus-times c.money g.diamond,
      add_money1-money1 g.money _ h (subst (λ n. pos 0 ≤ℤ n) (sym (add_money-money1 _ c)) k)
          ∙ ap (λ n. n +ℤ g.money) (add_money-money1 _ c),
    )

-- The two ends of a request to exchange money, for the client at `p`.
abbrev pub Exchanged : GoldShopInfo → ClientManager → ℕ → Option ℕ × ClientManager → Type 0
Exchanged g m p r =
    (r.0 ≡ some 1)
      × (g.diamond +ℤ pos 1 ≤ℤ (m.store p).money)
      × IsBought g (m.store p) (r.1.store p)
      × ((j : ℕ) → p ≢ j → r.1.store j ≡ m.store j)
    ⊎ (r ≡ (some 0, m)) × ((m.store p).money ≤ℤ g.diamond)

enough-parts :
    (n : ℤ) (a : ℤ) → ltb_ℤ n a ≡ true → pos_part n + neg_part a < pos_part a + neg_part n
enough-parts n a e = ground (arith, e)

enough-le : (n : ℤ) (a : ℤ) → ltb_ℤ n a ≡ true → n +ℤ pos 1 ≤ℤ a
enough-le n a e = omega (int_laws, enough-parts n a e)

short-le : (n : ℤ) (a : ℤ) → ltb_ℤ n a ≡ false → a ≤ℤ n
short-le n a e = ground (arith, e)

exchange_by-Exchanged :
    (g : GoldShopInfo) (m : ClientManager) (p : ℕ)
    → pos 0 ≤ℤ g.money
    → pos 0 ≤ℤ (m.store p).money1
    → Exchanged g m p (exchange_by (some g) p m)
unfolding enough_money
exchange_by-Exchanged g m p h k = at_money (ltb_ℤ g.diamond (m.store p).money) refl
  where
    at_money :
        (b : Bool)
        → ltb_ℤ g.diamond (m.store p).money ≡ b
        → Exchanged g m p
            (if b then (some 1, set_client p (bought g (m.store p)) m) else (some 0, m))
    at_money true e = inl (
      refl,
      enough-le g.diamond (m.store p).money e,
      subst (IsBought g (m.store p)) (sym (write-same p (bought g (m.store p)) m.store))
          (bought-IsBought g (m.store p) h k),
      λ j other. ground (arith, other),
    )
    at_money false e = inr (refl, short-le g.diamond (m.store p).money e)

-- A client that asks for money of the other kind pays for it and gets it, and no other client
-- changes, if it has more than the price; or else nothing changes, also if it has just the price.
pub exchange-Exchanged :
    (g : GoldShopInfo) (ccid : ℕ) (m : ClientManager) (p : ℕ)
    → find ccid m.ccid2clients ≡ some (some p)
    → pos 0 ≤ℤ g.money
    → pos 0 ≤ℤ (m.store p).money1
    → Exchanged g m p (exchange (some g) ccid m)
unfolding exchange
exchange-Exchanged g ccid m p e h k =
    subst (λ r. Exchanged g m p (exchange_of (some g) m r)) (sym e)
      (exchange_by-Exchanged g m p h k)
