-- ===== src/Lobby/Kept.antt =====
-- The requests about money and the keys of the clients.
use chess_games.Prelude.{Bool, Option, false, if◌then◌else◌, none, not, refl, some, true, ℕ, ◌≡◌}
use chess_games.Prelude.Int.{eqb_ℤ, negsuc, pos, ℤ, ◌*ℤ◌, ◌+ℤ◌}
use chess_games.FastMap.{find}
use chess_games.Lobby.Clients.{Client, ClientManager, set_client}
use chess_games.Lobby.Login.{Loaded, load_failed, loaded, unknown}
use chess_games.Lobby.Money.{
  GoldShopInfo, Receipt, add_money, add_money1, bought, enough_money, exchange, exchange_of,
  not_below_0, paid, payment, payment_by, payment_of, recharge_money, recharge_of,
}
use chess_games.Lobby.Tables.{View}
use chess_games.Lobby.Indexed.{keys_kept-IsIndexed}
use chess_games.Lobby.Admitted.{IsManaged}

abbrev pub KeepsKeys : Client → Client → Type 0
KeepsKeys c d = (d.openid ≡ c.openid) × (d.cuid ≡ c.cuid) × (d.ccid ≡ c.ccid)

add_money-KeepsKeys : (n : ℤ) (c : Client) → KeepsKeys c (add_money n c)
unfolding add_money
add_money-KeepsKeys n c = at_zero (eqb_ℤ n (pos 0))
  where
    at_zero : (b : Bool) → KeepsKeys c (if b then c else record c { money = c.money +ℤ n })
    at_zero true = (refl, refl, refl)
    at_zero false = (refl, refl, refl)

add_money1-KeepsKeys : (n : ℤ) (c d : Client) → KeepsKeys c d → KeepsKeys c (add_money1 n d)
unfolding add_money1
add_money1-KeepsKeys n c d keys = at_zero (eqb_ℤ n (pos 0))
  where
    at_zero :
        (b : Bool)
        → KeepsKeys c (if b then d else record d { money1 = not_below_0 (d.money1 +ℤ n) })
    at_zero true = keys
    at_zero false = keys

bought-KeepsKeys : (g : GoldShopInfo) (c : Client) → KeepsKeys c (bought g c)
bought-KeepsKeys g c = at_zero (not (eqb_ℤ g.money (pos 0)))
  where
    at_zero :
        (b : Bool)
        → KeepsKeys c (
            if b
            then add_money1 g.money (add_money (g.diamond *ℤ negsuc 0) c)
            else add_money (g.diamond *ℤ negsuc 0) c)
    at_zero true = add_money1-KeepsKeys g.money c _ (add_money-KeepsKeys _ c)
    at_zero false = add_money-KeepsKeys _ c

pub set_client-IsManaged :
    (m : ClientManager) (v : View) (p : ℕ) (c : Client)
    → IsManaged m v
    → KeepsKeys (m.store p) c
    → IsManaged (set_client p c m) v
set_client-IsManaged m v p c ok (x, y, z) = (
  record { openids = ok.0.openids; cuids = ok.0.cuids; ccids = ok.0.ccids },
  keys_kept-IsIndexed m.store m.fresh v ok.1 p c x y z,
)

if-IsManaged :
    {A : Type 0} (v : View) (b : Bool) (x y : A × ClientManager)
    → IsManaged x.1 v
    → IsManaged y.1 v
    → IsManaged (if b then x else y).1 v
if-IsManaged v true x y one two = one
if-IsManaged v false x y one two = two

module _ (m : ClientManager) (v : View) (ok : IsManaged m v) where
  exchange_of-IsManaged :
      (g : Option GoldShopInfo) (r : Option (Option ℕ)) → IsManaged (exchange_of g m r).1 v
  exchange_of-IsManaged g none = ok
  exchange_of-IsManaged g (some none) = ok
  exchange_of-IsManaged none (some (some p)) = ok
  exchange_of-IsManaged (some g) (some (some p)) =
      if-IsManaged v (enough_money g.diamond (m.store p)) _ _
        (set_client-IsManaged m v p _ ok (bought-KeepsKeys g (m.store p))) ok

  pub exchange-IsManaged : (g : Option GoldShopInfo) (ccid : ℕ) → IsManaged (exchange g ccid m).1 v
  unfolding exchange
  exchange-IsManaged g ccid = exchange_of-IsManaged g (find ccid m.ccid2clients)

  payment_by-IsManaged :
      (r : Receipt) (base : Option ℤ) (p : ℕ) → IsManaged (payment_by r base p m).1 v
  payment_by-IsManaged r none p = ok
  payment_by-IsManaged r (some base) p =
      if-IsManaged v (not (eqb_ℤ (paid r base) (pos 0))) _ _
        (set_client-IsManaged m v p _ ok (add_money-KeepsKeys _ (m.store p))) ok

  payment_of-IsManaged : (r : Receipt) (o : Option (Option ℕ)) → IsManaged (payment_of r m o).1 v
  payment_of-IsManaged r none = ok
  payment_of-IsManaged r (some none) = ok
  payment_of-IsManaged r (some (some p)) = payment_by-IsManaged r r.base p

  pub payment-IsManaged : (r : Receipt) (ccid : ℕ) → IsManaged (payment r ccid m).1 v
  unfolding payment
  payment-IsManaged r ccid = payment_of-IsManaged r (find ccid m.ccid2clients)

  recharge_of-IsManaged :
      (l : Loaded) (money : ℤ) (o : Option (Option ℕ)) → IsManaged (recharge_of money m l o).0 v
  recharge_of-IsManaged l money none = ok
  recharge_of-IsManaged load_failed money (some none) = ok
  recharge_of-IsManaged unknown money (some none) = ok
  recharge_of-IsManaged (loaded c) money (some none) = ok
  recharge_of-IsManaged l money (some (some p)) =
      set_client-IsManaged m v p _ ok (add_money-KeepsKeys money (m.store p))

  pub recharge_money-IsManaged :
      (l : Loaded) (cuid : ℕ) (money : ℤ) → IsManaged (recharge_money l cuid money m).0 v
  unfolding recharge_money
  recharge_money-IsManaged l cuid money = recharge_of-IsManaged l money (find cuid m.cuid2clients)
