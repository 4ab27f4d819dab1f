-- ===== src/Lobby/Money.antt =====
-- The money of a client: `addMoney` and its kin of server/processes/lobby/client.h,
-- `afterShareByWeChat` of client.cpp, and the requests about money of client_manager.cpp. Sums stay
-- within the bounds of `int32_t`; what is sent and saved is left out.
use chess_games.Prelude.{Bool, Option, if◌then◌else◌, none, not, some, ℕ, ◌||◌}
use chess_games.Prelude.Int.{eqb_ℤ, ltb_ℤ, negsuc, pos, ℤ, ◌*ℤ◌, ◌+ℤ◌}
use chess_games.FastMap.{find}
use chess_games.Lobby.History.{in_same_day}
use chess_games.Lobby.Clients.{Client, ClientManager, set_client}
use chess_games.Lobby.Login.{Loaded, load_failed, loaded, unknown}

unfoldable pub enough_money : ℤ → Client → Bool
enough_money n c = ltb_ℤ n c.money

unfoldable pub add_money : ℤ → Client → Client
add_money n c = if eqb_ℤ n (pos 0) then c else record c { money = c.money +ℤ n }

unfoldable pub enough_money1 : ℤ → Client → Bool
enough_money1 n c = ltb_ℤ n c.money1

abbrev pub not_below_0 : ℤ → ℤ
not_below_0 n = if ltb_ℤ n (pos 0) then pos 0 else n

unfoldable pub add_money1 : ℤ → Client → Client
add_money1 n c = if eqb_ℤ n (pos 0) then c else record c { money1 = not_below_0 (c.money1 +ℤ n) }

-- What a key of `goldExchange` costs, and gives.
pub record GoldShopInfo : Type 0 where
  pub diamond : ℤ
  pub money : ℤ

abbrev pub bought : GoldShopInfo → Client → Client
bought g c =
    if not (eqb_ℤ g.money (pos 0))
    then add_money1 g.money (add_money (g.diamond *ℤ negsuc 0) c)
    else add_money (g.diamond *ℤ negsuc 0) c

-- The result that is sent, if any, and the clients.
abbrev pub exchange_by : Option GoldShopInfo → ℕ → ClientManager → Option ℕ × ClientManager
exchange_by none p m = (none, m)
exchange_by (some g) p m =
    if enough_money g.diamond (m.store p)
    then (some 1, set_client p (bought g (m.store p)) m)
    else (some 0, m)

abbrev pub exchange_of :
    Option GoldShopInfo → ClientManager → Option (Option ℕ) → Option ℕ × ClientManager
exchange_of g m none = (none, m)
exchange_of g m (some none) = (none, m)
exchange_of g m (some (some p)) = exchange_by g p m

-- `proto_C_Exchange` with what the configuration has for the key of the request.
unfoldable pub exchange : Option GoldShopInfo → ℕ → ClientManager → Option ℕ × ClientManager
exchange g ccid m = exchange_of g m (find ccid m.ccid2clients)

-- What `iosPayment` has for the sid of a request, if anything; `iosPaymentSwitch`; whether the data
-- is "win32"; and what `checkForHttpPost` gives for it.
pub record Receipt : Type 0 where
  pub base : Option ℤ
  pub switch : Bool
  pub is_win32 : Bool
  pub status : ℤ

abbrev pub paid : Receipt → ℤ → ℤ
paid r base =
    if r.switch then (if r.is_win32 || eqb_ℤ r.status (pos 0) then base else pos 0) else pos 0

abbrev pub payment_by : Receipt → Option ℤ → ℕ → ClientManager → Option ℕ × ClientManager
payment_by r none p m = (none, m)
payment_by r (some base) p m =
    if not (eqb_ℤ (paid r base) (pos 0))
    then (some 1, set_client p (add_money (paid r base) (m.store p)) m)
    else (some 0, m)

abbrev pub payment_of : Receipt → ClientManager → Option (Option ℕ) → Option ℕ × ClientManager
payment_of r m none = (none, m)
payment_of r m (some none) = (none, m)
payment_of r m (some (some p)) = payment_by r r.base p m

-- `proto_C_G13_Payment`.
unfoldable pub payment : Receipt → ℕ → ClientManager → Option ℕ × ClientManager
payment r ccid m = payment_of r m (find ccid m.ccid2clients)

-- The clients, and the object that redis gave and that is saved again, if any.
abbrev pub recharge_loaded : ℤ → ClientManager → Loaded → ClientManager × Option Client
recharge_loaded money m load_failed = (m, none)
recharge_loaded money m unknown = (m, none)
recharge_loaded money m (loaded c) = (m, some (add_money money c))

abbrev pub recharge_of :
    ℤ → ClientManager → Loaded → Option (Option ℕ) → ClientManager × Option Client
recharge_of money m l none = (m, none)
recharge_of money m l (some none) = recharge_loaded money m l
recharge_of money m l (some (some p)) = (set_client p (add_money money (m.store p)) m, none)

-- `rechargeMoney`, with what `loadClient` gives for the cuid.
unfoldable pub recharge_money : Loaded → ℕ → ℤ → ClientManager → ClientManager × Option Client
recharge_money l cuid money m = recharge_of money m l (find cuid m.cuid2clients)

-- `Client::afterShareByWeChat` at the time `now`, with `ShareByWeChat::isActive` and `awardMoney`.
unfoldable pub after_share_by_we_chat : (ℕ → ℕ) → Bool → ℤ → ℕ → Client → Client
after_share_by_we_chat clock is_active award now c =
    if not is_active
    then c
    else if in_same_day clock now c.last_share_time
    then c
    else add_money award (record c { last_share_time = now })
