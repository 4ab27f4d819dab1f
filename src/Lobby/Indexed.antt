-- ===== src/Lobby/Indexed.antt =====
-- When each client is in all three tables of the manager under its own keys, or in none.
use chess_games.Prelude.{arith, none, some, suc, ℕ, ◌<◌, ◌≡◌, ◌≢◌}
use chess_games.Lobby.Clients.{Client, write}
use chess_games.Lobby.Tables.{View, entered, gone}

abbrev pub IsKnown : (ℕ → Client) → View → ℕ → Type 0
IsKnown store v p =
    (v.openids (store p).openid ≡ some p)
    × (v.cuids (store p).cuid ≡ some p)
    × (v.ccids (store p).ccid ≡ some p)

pub record IsIndexed (store : ℕ → Client) (fresh : ℕ) (v : View) : Type 0 where
  pub by_openid :
      (k p : ℕ) → v.openids k ≡ some p → ((store p).openid ≡ k) × IsKnown store v p × (p < fresh)
  pub by_cuid : (k p : ℕ) → v.cuids k ≡ some p → ((store p).cuid ≡ k) × IsKnown store v p
  pub by_ccid : (k p : ℕ) → v.ccids k ≡ some p → ((store p).ccid ≡ k) × IsKnown store v p

module _ (store : ℕ → Client) (fresh : ℕ) (v : View) (ok : IsIndexed store fresh v) (p : ℕ) where
  -- A client in none of the tables.
  abbrev pub IsAway : Type 0
  IsAway = (k : ℕ) → v.openids k ≢ some p

  pub keys_kept-IsIndexed :
      (c : Client)
      → c.openid ≡ (store p).openid
      → c.cuid ≡ (store p).cuid
      → c.ccid ≡ (store p).ccid
      → IsIndexed (write p c store) fresh v
  keys_kept-IsIndexed c x y z = record {
    by_openid = λ k j h. ground (arith, x, y, z, ok.by_openid k j h);
    by_cuid = λ k j h. ground (arith, x, y, z, ok.by_cuid k j h);
    by_ccid = λ k j h. ground (arith, x, y, z, ok.by_ccid k j h);
  }

  pub away-IsIndexed : (c : Client) → IsAway → IsIndexed (write p c store) fresh v
  away-IsIndexed c away = record {
    by_openid = λ k j h. ground (arith, ok.by_openid k j h, away k);
    by_cuid = λ k j h. ground (arith, ok.by_cuid k j h, away (store j).openid);
    by_ccid = λ k j h. ground (arith, ok.by_ccid k j h, away (store j).openid);
  }

  pub entered-IsIndexed :
      IsAway
      → p < fresh
      → v.openids (store p).openid ≡ none
      → v.cuids (store p).cuid ≡ none
      → v.ccids (store p).ccid ≡ none
      → IsIndexed store fresh (entered p (store p) v)
  entered-IsIndexed away old x y z = record {
    by_openid = λ k j h. ground (arith, ok.by_openid k j, h, old, x, y, z);
    by_cuid = λ k j h. ground (arith, ok.by_cuid k j, h, x, y, z);
    by_ccid = λ k j h. ground (arith, ok.by_ccid k j, h, x, y, z);
  }

  -- The keys of different clients differ.
  pub keys_differ :
      IsKnown store v p
      → (j : ℕ) → IsKnown store v j
      → p ≢ j
      → ((store p).openid ≢ (store j).openid)
        × ((store p).cuid ≢ (store j).cuid)
        × ((store p).ccid ≢ (store j).ccid)
  keys_differ known j other differ = (
    λ e. ground (arith, known, other, differ, e),
    λ e. ground (arith, known, other, differ, e),
    λ e. ground (arith, known, other, differ, e),
  )

  pub gone-IsIndexed : IsKnown store v p → IsIndexed store fresh (gone (store p) v)
  gone-IsIndexed known = record {
    by_openid = λ k j h. ground (arith, known, ok.by_openid k j, h, keys_differ known j);
    by_cuid = λ k j h. ground (arith, known, ok.by_cuid k j, h, keys_differ known j);
    by_ccid = λ k j h. ground (arith, known, ok.by_ccid k j, h, keys_differ known j);
  }

  pub gone-away : IsKnown store v p → (k : ℕ) → (gone (store p) v).openids k ≢ some p
  gone-away known k h = ground (arith, known, ok.by_openid k p, h)

pub fresh-away :
    (store : ℕ → Client) (fresh : ℕ) (v : View)
    → IsIndexed store fresh v
    → (k : ℕ) → v.openids k ≢ some fresh
fresh-away store fresh v ok k h = ground (arith, ok.by_openid k fresh h)

pub fresh-IsIndexed :
    (store : ℕ → Client) (fresh : ℕ) (v : View) (c : Client)
    → IsIndexed store fresh v
    → IsIndexed (write fresh c store) (suc fresh) v
fresh-IsIndexed store fresh v c ok =
    grown (away-IsIndexed store fresh v ok fresh c (fresh-away store fresh v ok))
  where
    grown : IsIndexed (write fresh c store) fresh v → IsIndexed (write fresh c store) (suc fresh) v
    grown more = record {
      by_openid = λ k j h. ground (arith, more.by_openid k j h);
      by_cuid = more.by_cuid;
      by_ccid = more.by_ccid;
    }
