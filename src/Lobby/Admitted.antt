-- ===== src/Lobby/Admitted.antt =====
-- A client that is let in by `ClientManager::proto_LoginQuest`, and the end of its login.
use chess_games.Prelude.{
  Bool, Option, ap, arith, false, if◌then◌else◌, none, not, refl, some, subst, sym, true, ℕ, ◌&&◌,
  ◌∙◌, ◌≡◌, ◌≢◌, ◌⊎◌,
}
use chess_games.Lobby.Clients.{Client, ClientManager, erase_client, set_client, write}
use chess_games.Lobby.Login.{
  LoginQuest, RetCode, World, band, fields_set, loaded, online, reg_failed, reg_failed_with,
  save_client, stored, succes, token_expiried,
}
use chess_games.Lobby.Tables.{Shows, Tabled, View, erase_client-gone, gone}
use chess_games.Lobby.Indexed.{IsIndexed, IsKnown, gone-IsIndexed, keys_kept-IsIndexed}

abbrev pub IsManaged : ClientManager → View → Type 0
IsManaged m v = Shows m v × IsIndexed m.store m.fresh v

-- The token of `q`, which no service checked, is not that of the client, which is known or else is
-- loaded.
abbrev pub IsStranger : World → LoginQuest → ClientManager → View → Type 0
IsStranger w q m v =
    (q.verified ≡ false)
    × (((p : ℕ) × (v.openids q.openid ≡ some p) × (q.token ≢ (m.store p).token))
        ⊎ ((c : Client) × (v.openids q.openid ≡ none) × (w.loads ≡ loaded c) × (q.token ≢ c.token)))

-- Who logs in as `q` is known under its new ccid and under its openid, with what `q` says. Only a
-- stranger is turned down for its token, which changes nothing, and no client is banned.
abbrev pub Served : World → LoginQuest → ClientManager → ClientManager → View → RetCode → Type 0
Served w q m next v succes =
    (p : ℕ) × (v.ccids q.ccid ≡ some p)
    × (v.openids q.openid ≡ some p)
    × ((next.store p).token ≡ q.token)
    × ((next.store p).name ≡ q.name)
    × ((next.store p).offline_time ≡ 0)
Served w q m next v reg_failed = Unit
Served w q m next v band = ⊥
Served w q m next v token_expiried = (next ≡ m) × IsStranger w q m v

abbrev pub Answered : World → LoginQuest → ClientManager → Option (RetCode × ClientManager) → Type 0
Answered w q m r =
    (code : RetCode) × (next : ClientManager) × (v : View) × (r ≡ some (code, next))
    × IsManaged next v
    × Served w q m next v code

pub Tabled-IsManaged :
    (m next : ClientManager) (v : View)
    → Tabled m v next
    → IsIndexed m.store m.fresh v
    → IsManaged next v
Tabled-IsManaged m next v (a, b, c, e, x, y, z) ok =
    subst (λ n. IsManaged n v) (sym e) (record { openids = x; cuids = y; ccids = z }, ok)

pub write-same : (p : ℕ) (c : Client) (store : ℕ → Client) → write p c store p ≡ c
write-same p c store = ground arith

pub if-Answered :
    (w : World) (q : LoginQuest) (m : ClientManager) (b : Bool)
    (x y : Option (RetCode × ClientManager))
    → (b ≡ true → Answered w q m x)
    → (b ≡ false → Answered w q m y)
    → Answered w q m (if b then x else y)
if-Answered w q m true x y one two = one refl
if-Answered w q m false x y one two = two refl

module _ (w : World) (q : LoginQuest) (start : ClientManager) where
  module _ (m : ClientManager) (v : View) (ok : IsManaged m v) (p : ℕ) where
    failed :
        (next : ClientManager) × (erase_client p m ≡ some next) × Tabled m (gone (m.store p) v) next
        → IsKnown m.store v p
        → Answered w q start (reg_failed_with (erase_client p m))
    failed (next, e, tabled) known = (
      reg_failed,
      next,
      gone (m.store p) v,
      ap reg_failed_with e,
      Tabled-IsManaged m next _ tabled (gone-IsIndexed m.store m.fresh v ok.1 p known),
      tt,
    )

    -- The fields that a login writes.
    abbrev pub IsFilled : Client → Type 0
    IsFilled c = (c.ccid ≡ q.ccid) × (c.openid ≡ q.openid) × (c.token ≡ q.token) × (c.name ≡ q.name)

    admitted :
        IsKnown m.store v p
        → IsFilled (m.store p)
        → Answered w q start (some (succes, set_client p (online w (m.store p)) m))
    unfolding online
    admitted (x, y, z) (ccid, openid, token, name) = (
      succes,
      set_client p (online w (m.store p)) m,
      v,
      refl,
      (
        record { openids = ok.0.openids; cuids = ok.0.cuids; ccids = ok.0.ccids },
        keys_kept-IsIndexed m.store m.fresh v ok.1 p (online w (m.store p)) refl refl refl,
      ),
      (
        p,
        subst (λ k. v.ccids k ≡ some p) ccid z,
        subst (λ k. v.openids k ≡ some p) openid x,
        ap (λ (c : Client). c.token) (write-same p (online w (m.store p)) m.store) ∙ token,
        ap (λ (c : Client). c.name) (write-same p (online w (m.store p)) m.store) ∙ name,
        ap (λ (c : Client). c.offline_time) (write-same p (online w (m.store p)) m.store),
      ),
    )

    pub stored-Answered :
        IsKnown m.store v p → IsFilled (m.store p) → Answered w q start (stored w q p m)
    stored-Answered known filled =
        if-Answered w q start (q.verified && not (save_client w)) _ _
          (λ e. failed (erase_client-gone m v ok.0 p) known) (λ e. admitted known filled)

    -- The object that is written keeps its keys, but for its new ccid.
    pub fields_set-IsFilled :
        IsKnown m.store v p
        → (m.store p).ccid ≡ q.ccid
        → (m.store p).openid ≡ q.openid
        → IsManaged (set_client p (fields_set q (m.store p)) m) v
          × IsKnown (write p (fields_set q (m.store p)) m.store) v p
          × IsFilled (write p (fields_set q (m.store p)) m.store p)
    fields_set-IsFilled (x, y, z) ccid openid = (
      (
        record { openids = ok.0.openids; cuids = ok.0.cuids; ccids = ok.0.ccids },
        keys_kept-IsIndexed m.store m.fresh v ok.1 p (fields_set q (m.store p)) refl refl
            (sym ccid),
      ),
      subst
          (λ c.
            (v.openids c.openid ≡ some p) × (v.cuids c.cuid ≡ some p) × (v.ccids c.ccid ≡ some p))
          (sym (write-same p (fields_set q (m.store p)) m.store))
          (x, y, subst (λ k. v.ccids k ≡ some p) ccid z),
      subst IsFilled (sym (write-same p (fields_set q (m.store p)) m.store))
          (refl, openid, refl, refl),
    )
