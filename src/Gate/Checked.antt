-- ===== src/Gate/Checked.antt =====
-- Which logins the gateway passes on to the lobby.
use chess_games.Prelude.{All, List, none, some, true, ℕ, ◌≡◌, ◌≢◌, ◌⊎◌}
use chess_games.Prelude.Int.{pos}
use chess_games.Gate.Clients.{
  ClientManager, Sent, client_disconnected, erased, login_quest, login_ret,
}
use chess_games.Gate.Login.{CLogin, Checks, WechatInfo}

-- A quest that says it is verified is of type 1 and has the openid that the service gave for its token,
-- or is of type 0, a visitor's, during the review; one that does not say so is of a type that the
-- gateway does not know.
pub IsFair : Checks → CLogin → ℕ → Sent → Type 0
IsFair w q ccid (client_disconnected c) = Unit
IsFair w q ccid (erased c) = Unit
IsFair w q ccid (login_ret c code) = Unit
IsFair w q ccid (login_quest s) =
    (s.ccid ≡ ccid)
    × ((s.verified ≡ some true)
          × (q.login_type ≡ pos 1)
          × ((info : WechatInfo) × (w.check_wechat_login ≡ some info) × (s.openid ≡ info.openid))
        ⊎ (s.verified ≡ some true)
          × (q.login_type ≡ pos 0)
          × (w.apple_review ≡ true)
          × (s.openid ≡ q.openid)
        ⊎ (s.verified ≡ none)
          × (q.login_type ≢ pos 0)
          × (q.login_type ≢ pos 1)
          × (q.login_type ≢ pos 2))

module _ (w : Checks) (q : CLogin) (ccid : ℕ) where
  AreFair : List Sent × ClientManager → Type 0
  AreFair r = All (IsFair w q ccid) r.0
