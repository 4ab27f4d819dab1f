-- ===== src/Lobby/Trusted.antt =====
-- Whom `ClientManager::proto_LoginQuest` refuses for its token.
use chess_games.Prelude.{
  Bool-cases, Option, arith, false, inl, inr, none, refl, some, true, ℕ, ◌==◌, ◌≡◌, ◌⊎◌,
}
use chess_games.Lobby.Clients.{Client, ClientManager}
use chess_games.Lobby.Login.{
  Loaded, LoginQuest, RetCode, World, load_failed, loaded, logged_off, login_of, reg_failed,
  replaced, token_expiried, unknown,
}
use chess_games.Lobby.Tables.{View}
use chess_games.Lobby.Admitted.{IsStranger}

-- The service has checked the login, or it has the token of the client, which is known or else is
-- loaded.
abbrev pub IsTrusted : World → LoginQuest → ClientManager → View → Type 0
IsTrusted w q m v =
    (q.verified ≡ true)
    ⊎ ((p : ℕ) × (v.openids q.openid ≡ some p) × (q.token ≡ (m.store p).token))
    ⊎ ((c : Client) × (v.openids q.openid ≡ none) × (w.loads ≡ loaded c) × (q.token ≡ c.token))

-- The client cannot be loaded, or is nowhere to be found and nobody has checked its login.
abbrev pub IsLost : World → LoginQuest → View → Type 0
IsLost w q v =
    (v.openids q.openid ≡ none)
    × ((w.loads ≡ load_failed) ⊎ (w.loads ≡ unknown) × (q.verified ≡ false))

-- Who is not trusted is refused, and nothing changes.
abbrev pub Admits :
    World → LoginQuest → ClientManager → View → Option (RetCode × ClientManager) → Type 0
Admits w q m v r =
    (IsStranger w q m v × (r ≡ some (token_expiried, m)))
    ⊎ (IsLost w q v × (r ≡ some (reg_failed, m)))
    ⊎ IsTrusted w q m v

module _ (w : World) (q : LoginQuest) (m : ClientManager) (v : View) where
  known-Admits : (p : ℕ) → v.openids q.openid ≡ some p → Admits w q m v (replaced w q m p)
  known-Admits p x = elim (Bool-cases q.verified) [
    | inl f ↦ inr (inr (inl f))
    | inr f ↦ elim (Bool-cases (q.token == (m.store p).token)) [
      | inl g ↦ inr (inr (inr (inl (p, x, ground (arith, g)))))
      | inr g ↦ inl ((f, inl (p, x, λ e. ground (arith, g, e))), rw (f, g) refl)
    ]
  ]

  loaded-Admits :
      (l : Loaded) → v.openids q.openid ≡ none → w.loads ≡ l → Admits w q m v (logged_off w q m l)
  loaded-Admits load_failed x l = inr (inl ((x, inl l), refl))
  loaded-Admits unknown x l = elim (Bool-cases q.verified) [
    | inl f ↦ inr (inr (inl f))
    | inr f ↦ inr (inl ((x, inr (l, f)), rw f refl))
  ]
  loaded-Admits (loaded c) x l = elim (Bool-cases q.verified) [
    | inl f ↦ inr (inr (inl f))
    | inr f ↦ elim (Bool-cases (q.token == c.token)) [
      | inl g ↦ inr (inr (inr (inr (c, x, l, ground (arith, g)))))
      | inr g ↦ inl ((f, inr (c, x, l, λ e. ground (arith, g, e))), rw (f, g) refl)
    ]
  ]

  pub login_of-Admits :
      (o : Option ℕ) → v.openids q.openid ≡ o → Admits w q m v (login_of w q m (some o))
  login_of-Admits none x = loaded-Admits w.loads x refl
  login_of-Admits (some p) x = known-Admits p x
