-- ===== src/Lobby/Survives.antt =====
-- A login and the loss of other connections.
use chess_games.Prelude.{Option, ap, arith, none, refl, some, subst, sym, ℕ, ◌∙◌, ◌≡◌, ◌≢◌}
use chess_games.FastMap.{find}
use chess_games.Lobby.Clients.{Client, ClientManager}
use chess_games.Lobby.Login.{LoginQuest, RetCode, World, loaded, login, succes}
use chess_games.Lobby.Ticks.{client_disconnected, disconnected_of}
use chess_games.Lobby.Tables.{Shows, View}
use chess_games.Lobby.Indexed.{IsIndexed}
use chess_games.Lobby.Logins.{login-Served}
use chess_games.Lobby.Admitted.{Answered, IsManaged, Served}

answer_of : RetCode × ClientManager → Option (RetCode × ClientManager) → RetCode × ClientManager
answer_of d none = d
answer_of d (some r) = r

-- The answer, with what it is known of it.
abbrev IsServed : World → LoginQuest → ClientManager → RetCode × ClientManager → Type 0
IsServed w q m r = (v : View) × IsManaged r.1 v × Served w q m r.1 v r.0

login-IsServed :
    (w : World) (q : LoginQuest) (m : ClientManager) (v : View) (r : RetCode × ClientManager)
    → IsManaged m v
    → ((c : Client) → w.loads ≡ loaded c → c.openid ≡ q.openid)
    → login w q m ≡ some r
    → IsServed w q m r
unfolding answer_of
login-IsServed w q m v r ok own e = goes (login-Served w q m v ok.0 ok.1 own).0
  where
    goes : Answered w q m (login w q m) → IsServed w q m r
    goes (code, next, u, f, managed, served) =
        subst (IsServed w q m) (ap (answer_of r) (sym f ∙ e)) (u, managed, served)

-- The connection `a` is not the client's.
loss-offline_time :
    (m : ClientManager) (p : ℕ) (now : ℕ) (r : Option (Option ℕ))
    → r ≢ some (some p)
    → ((disconnected_of now m r).store p).offline_time ≡ (m.store p).offline_time
loss-offline_time m p now none other = refl
loss-offline_time m p now (some none) other = refl
loss-offline_time m p now (some (some j)) other = ground (arith, other)

-- Who logs in stays on line when any other connection is lost, as that which it had before.
pub login-loss :
    (w : World) (q : LoginQuest) (m next : ClientManager) (v : View)
    → Shows m v
    → IsIndexed m.store m.fresh v
    → ((c : Client) → w.loads ≡ loaded c → c.openid ≡ q.openid)
    → login w q m ≡ some (succes, next)
    → (p : ℕ) × (find q.openid next.openid2clients ≡ some (some p))
      × ((ccid now : ℕ)
          → ccid ≢ q.ccid
          → ((client_disconnected ccid now next).store p).offline_time ≡ 0)
unfolding client_disconnected
login-loss w q m next v shows indexed own e =
    goes (login-IsServed w q m v (succes, next) (shows, indexed) own e)
  where
    goes :
        IsServed w q m (succes, next)
        → (p : ℕ) × (find q.openid next.openid2clients ≡ some (some p))
          × ((ccid now : ℕ)
              → ccid ≢ q.ccid
              → ((disconnected_of now next (find ccid next.ccid2clients)).store p).offline_time ≡ 0)
    goes (u, managed, (p, ccid, openid, token, name, on)) = (
      p,
      managed.0.openids.finds q.openid ∙ ap some openid,
      λ a now other.
          loss-offline_time next p now (find a next.ccid2clients) (λ f. ground (
            arith,
            f,
            other,
            managed.0.ccids.finds a,
            managed.1.by_ccid a p,
            managed.1.by_ccid q.ccid p ccid,
          ))
          ∙ on,
    )
