-- ===== src/Lobby/Lives.antt =====
-- The life of a client manager: logins, lost connections, requests about money and the
-- timer, in any order.
use chess_games.Prelude.{Option, ap, arith, none, refl, some, subst, sym, ℕ, ◌∙◌, ◌≡◌}
use chess_games.FastMap.{find, no_items}
use chess_games.FastMap.Refines.{no_items-Models}
use chess_games.Lobby.Clients.{Client, ClientManager, new_client}
use chess_games.Lobby.Login.{Loaded, LoginQuest, RetCode, World, loaded, login}
use chess_games.Lobby.Ticks.{client_disconnected, disconnected_of, timer_exec_all}
use chess_games.Lobby.Tables.{Shows, View}
use chess_games.Lobby.Indexed.{IsIndexed, keys_kept-IsIndexed}
use chess_games.Lobby.Logins.{login-Served}
use chess_games.Lobby.Offline.{entry_after, timer_exec_all-IsManaged}
use chess_games.Prelude.Int.{ℤ}
use chess_games.Lobby.Money.{GoldShopInfo, Receipt, exchange, payment, recharge_money}
use chess_games.Lobby.Kept.{exchange-IsManaged, payment-IsManaged, recharge_money-IsManaged}
use chess_games.Lobby.Admitted.{Answered, IsManaged}

abbrev pub no_view : View
no_view = record { openids = λ k. none; cuids = λ k. none; ccids = λ k. none }

-- The manager of a new process, with the counter that redis has.
abbrev pub empty_manager : ℕ → ClientManager
empty_manager counter = record {
  store = λ p. new_client;
  fresh = 0;
  openid2clients = no_items;
  cuid2clients = no_items;
  ccid2clients = no_items;
  unique_id_counter = counter;
}

pub no_clients-Shows : (counter : ℕ) → Shows (empty_manager counter) no_view
no_clients-Shows counter = record {
  openids = no_items-Models;
  cuids = no_items-Models;
  ccids = no_items-Models;
}

pub no_clients-IsIndexed : (store : ℕ → Client) (fresh : ℕ) → IsIndexed store fresh no_view
no_clients-IsIndexed store fresh = record {
  by_openid = λ k p h. absurd (ground (arith, h));
  by_cuid = λ k p h. absurd (ground (arith, h));
  by_ccid = λ k p h. absurd (ground (arith, h));
}

-- Redis gives the client of the openid that it is asked for.
abbrev pub IsOwn : World → LoginQuest → Type 0
IsOwn w q = (c : Client) → w.loads ≡ loaded c → c.openid ≡ q.openid

pub data Lives : ClientManager → Type 0 where
  born : (counter : ℕ) → Lives (empty_manager counter)
  after_login :
      {m : ClientManager} (w : World) (q : LoginQuest) (code : RetCode) (next : ClientManager)
      → Lives m
      → IsOwn w q
      → login w q m ≡ some (code, next)
      → Lives next
  after_loss : {m : ClientManager} (ccid now : ℕ) → Lives m → Lives (client_disconnected ccid now m)
  after_timer :
      {m : ClientManager} (now : ℕ) (next : ClientManager)
      → Lives m
      → timer_exec_all now m ≡ some next
      → Lives next
  after_exchange :
      {m : ClientManager} (g : Option GoldShopInfo) (ccid : ℕ)
      → Lives m
      → Lives (exchange g ccid m).1
  after_payment :
      {m : ClientManager} (r : Receipt) (ccid : ℕ) → Lives m → Lives (payment r ccid m).1
  after_recharge :
      {m : ClientManager} (l : Loaded) (cuid : ℕ) (money : ℤ)
      → Lives m
      → Lives (recharge_money l cuid money m).0

module _ (m : ClientManager) (v : View) (ok : IsManaged m v) where
  disconnected-IsManaged : (now : ℕ) (r : Option (Option ℕ)) → IsManaged (disconnected_of now m r) v
  disconnected-IsManaged now none = ok
  disconnected-IsManaged now (some none) = ok
  disconnected-IsManaged now (some (some p)) = (
    record { openids = ok.0.openids; cuids = ok.0.cuids; ccids = ok.0.ccids },
    keys_kept-IsIndexed m.store m.fresh v ok.1 p (record (m.store p) { offline_time = now }) refl
        refl refl,
  )

abbrev Stays : ClientManager → Type 0
Stays m = (v : View) × IsManaged m v

abbrev pub answered_next : ClientManager → Option (RetCode × ClientManager) → ClientManager
answered_next m none = m
answered_next m (some r) = r.1

abbrev next_of : ClientManager → Option ClientManager → ClientManager
next_of m none = m
next_of m (some next) = next

login-Stays :
    (w : World) (q : LoginQuest) (m : ClientManager) (code : RetCode) (next : ClientManager)
    → IsOwn w q
    → login w q m ≡ some (code, next)
    → Stays m
    → Stays next
login-Stays w q m code next own e (v, ok) = goes (login-Served w q m v ok.0 ok.1 own).0
  where
    goes : Answered w q m (login w q m) → Stays next
    goes (code', n, u, f, managed, served) =
        subst Stays (ap (answered_next m) (sym f ∙ e)) (u, managed)

timer-Stays :
    (now : ℕ) (m next : ClientManager) → timer_exec_all now m ≡ some next → Stays m → Stays next
timer-Stays now m next e (v, ok) = goes (timer_exec_all-IsManaged now m v ok.0 ok.1)
  where
    goes :
        (n : ClientManager) × (u : View) × (timer_exec_all now m ≡ some n)
          × IsManaged n u
          × (n.store ≡ m.store)
          × ((k : ℕ) → u.cuids k ≡ entry_after now m.store (v.cuids k))
        → Stays next
    goes (n, u, f, managed, same, cuids) = subst Stays (ap (next_of m) (sym f ∙ e)) (u, managed)

loss-Stays : (ccid now : ℕ) (m : ClientManager) → Stays m → Stays (client_disconnected ccid now m)
unfolding client_disconnected
loss-Stays ccid now m (v, ok) = (v, disconnected-IsManaged m v ok now (find ccid m.ccid2clients))

exchange-Stays :
    (g : Option GoldShopInfo) (ccid : ℕ) (m : ClientManager) → Stays m → Stays (exchange g ccid m).1
exchange-Stays g ccid m (v, ok) = (v, exchange-IsManaged m v ok g ccid)

payment-Stays : (r : Receipt) (ccid : ℕ) (m : ClientManager) → Stays m → Stays (payment r ccid m).1
payment-Stays r ccid m (v, ok) = (v, payment-IsManaged m v ok r ccid)

recharge-Stays :
    (l : Loaded) (cuid : ℕ) (money : ℤ) (m : ClientManager)
    → Stays m
    → Stays (recharge_money l cuid money m).0
recharge-Stays l cuid money m (v, ok) = (v, recharge_money-IsManaged m v ok l cuid money)

-- In the life of a manager each client is in the three tables under its own openid, cuid and ccid,
-- or in none of them, and the tables' vectors and maps agree.
pub Lives-IsManaged : {m : ClientManager} → Lives m → (v : View) × IsManaged m v
Lives-IsManaged (born counter) = (no_view, (no_clients-Shows counter, no_clients-IsIndexed _ 0))
Lives-IsManaged (after_login {m} w q code next life own e) =
    login-Stays w q m code next own e (Lives-IsManaged life)
Lives-IsManaged (after_loss {m} ccid now life) = loss-Stays ccid now m (Lives-IsManaged life)
Lives-IsManaged (after_timer {m} now next life e) = timer-Stays now m next e (Lives-IsManaged life)
Lives-IsManaged (after_exchange {m} g ccid life) = exchange-Stays g ccid m (Lives-IsManaged life)
Lives-IsManaged (after_payment {m} r ccid life) = payment-Stays r ccid m (Lives-IsManaged life)
Lives-IsManaged (after_recharge {m} l cuid money life) =
    recharge-Stays l cuid money m (Lives-IsManaged life)
