-- ===== src/Lobby/Tables.antt =====
-- What `ClientManager::insert` and `ClientManager::erase` make of the three tables of clients.
use chess_games.Prelude.{Bool, Option, ap, false, none, refl, some, true, ℕ, ◌∙◌, ◌≡◌}
use chess_games.FastMap.{FastMap, added, erase}
use chess_games.FastMap.Refines.{
  Erased, Models, Models-same, added-Models, erase-Models, insert-new, insert-old, with_item,
  without, without-with_item,
}
use chess_games.Lobby.Clients.{
  Client, ClientManager, erase_client, insert_client, refused, to_ccids, to_cuids, to_openids,
  with_ccids, with_cuids, with_openids,
}

-- The tables, each as a map from keys to clients.
pub record View : Type 0 where
  pub openids : ℕ → Option ℕ
  pub cuids : ℕ → Option ℕ
  pub ccids : ℕ → Option ℕ

pub record Shows (m : ClientManager) (v : View) : Type 0 where
  pub openids : Models m.openid2clients v.openids
  pub cuids : Models m.cuid2clients v.cuids
  pub ccids : Models m.ccid2clients v.ccids

abbrev pub tables : ClientManager → FastMap ℕ → FastMap ℕ → FastMap ℕ → ClientManager
tables m a b c = record m { openid2clients = a; cuid2clients = b; ccid2clients = c }

abbrev pub entered : ℕ → Client → View → View
entered p c v = record {
  openids = with_item c.openid p v.openids;
  cuids = with_item c.cuid p v.cuids;
  ccids = with_item c.ccid p v.ccids;
}

abbrev pub gone : Client → View → View
gone c v = record {
  openids = without c.openid v.openids;
  cuids = without c.cuid v.cuids;
  ccids = without c.ccid v.ccids;
}

-- The manager `m` with other tables, which show `v`.
abbrev pub Tabled : ClientManager → View → ClientManager → Type 0
Tabled m v next =
    (a b c : FastMap ℕ) × (next ≡ tables m a b c)
    × Models a v.openids
    × Models b v.cuids
    × Models c v.ccids

abbrev pub Inserted : ClientManager → View → Bool → Option (Bool × ClientManager) → Type 0
Inserted m v ok r = (next : ClientManager) × (r ≡ some (ok, next)) × Tabled m v next

module _ (m : ClientManager) (v : View) (ok : Shows m v) (p : ℕ) where
  pub insert_client-new :
      v.openids (m.store p).openid ≡ none
      → v.cuids (m.store p).cuid ≡ none
      → v.ccids (m.store p).ccid ≡ none
      → Inserted m (entered p (m.store p) v) true (insert_client p m)
  unfolding insert_client
  insert_client-new x y z = (
    tables m _ _ _,
    ap (to_openids p (m.store p) m) (insert-new m.openid2clients v.openids ok.openids _ p x)
        ∙ ap (to_cuids p (m.store p) _) (insert-new m.cuid2clients v.cuids ok.cuids _ p y)
        ∙ ap (to_ccids p (m.store p) _) (insert-new m.ccid2clients v.ccids ok.ccids _ p z),
    (
      _,
      _,
      _,
      refl,
      added-Models m.openid2clients v.openids ok.openids _ p x,
      added-Models m.cuid2clients v.cuids ok.cuids _ p y,
      added-Models m.ccid2clients v.ccids ok.ccids _ p z,
    ),
  )

  pub insert_client-openid :
      (w : ℕ) → v.openids (m.store p).openid ≡ some w → Inserted m v false (insert_client p m)
  unfolding insert_client
  insert_client-openid w x = (
    m,
    ap (to_openids p (m.store p) m) (insert-old m.openid2clients v.openids ok.openids _ p w x),
    (_, _, _, refl, ok.openids, ok.cuids, ok.ccids),
  )

  -- An entry is made and taken out again.
  rolled_back :
      (q : FastMap ℕ) (f : ℕ → Option ℕ) (k : ℕ)
      → Models q f
      → f k ≡ none
      → (next : FastMap ℕ) × (erase k (added k p q) ≡ some next) × Models next f
  rolled_back q f k qf x =
      same (erase-Models (added k p q) (with_item k p f) (added-Models q f qf k p x) k)
    where
      same :
          (next : FastMap ℕ) × (erase k (added k p q) ≡ some next)
            × Models next (without k (with_item k p f))
          → (next : FastMap ℕ) × (erase k (added k p q) ≡ some next) × Models next f
      same (next, e, more) = (next, e, Models-same next _ f (without-with_item k p f x) more)

  pub insert_client-cuid :
      (w : ℕ)
      → v.openids (m.store p).openid ≡ none
      → v.cuids (m.store p).cuid ≡ some w
      → Inserted m v false (insert_client p m)
  unfolding insert_client
  insert_client-cuid w x y = back (rolled_back m.openid2clients v.openids _ ok.openids x)
    where
      back :
          (next : FastMap ℕ) × (erase
                (m.store p).openid
                (added (m.store p).openid p m.openid2clients)
              ≡ some next)
            × Models next v.openids
          → Inserted m v false (insert_client p m)
      back (next, e, more) = (
        tables m next m.cuid2clients m.ccid2clients,
        ap (to_openids p (m.store p) m) (insert-new m.openid2clients v.openids ok.openids _ p x)
            ∙ ap (to_cuids p (m.store p) _) (insert-old m.cuid2clients v.cuids ok.cuids _ p w y)
            ∙ ap (λ r. refused (with_openids m r)) e,
        (_, _, _, refl, more, ok.cuids, ok.ccids),
      )

  abbrev both : ClientManager
  both =
      tables m (added (m.store p).openid p m.openid2clients)
        (added (m.store p).cuid p m.cuid2clients) m.ccid2clients

  pub insert_client-ccid :
      (w : ℕ)
      → v.openids (m.store p).openid ≡ none
      → v.cuids (m.store p).cuid ≡ none
      → v.ccids (m.store p).ccid ≡ some w
      → Inserted m v false (insert_client p m)
  unfolding insert_client
  insert_client-ccid w x y z =
      back (rolled_back m.openid2clients v.openids _ ok.openids x)
        (rolled_back m.cuid2clients v.cuids _ ok.cuids y)
    where
      back :
          (a : FastMap ℕ) × (erase (m.store p).openid (added (m.store p).openid p m.openid2clients)
              ≡ some a)
            × Models a v.openids
          → (b : FastMap ℕ) × (erase (m.store p).cuid (added (m.store p).cuid p m.cuid2clients)
              ≡ some b)
            × Models b v.cuids
          → Inserted m v false (insert_client p m)
      back (a, e, more) (b, f, most) = (
        tables m a b m.ccid2clients,
        ap (to_openids p (m.store p) m) (insert-new m.openid2clients v.openids ok.openids _ p x)
            ∙ ap (to_cuids p (m.store p) _) (insert-new m.cuid2clients v.cuids ok.cuids _ p y)
            ∙ ap (to_ccids p (m.store p) _) (insert-old m.ccid2clients v.ccids ok.ccids _ p w z)
            ∙ ap
                (λ r.
                  refused
                    (with_cuids (with_openids both r) (erase (m.store p).cuid both.cuid2clients)))
                e
            ∙ ap (λ r. refused (with_cuids (some (record both { openid2clients = a })) r)) f,
        (_, _, _, refl, more, most, ok.ccids),
      )

  pub erase_client-gone :
      (next : ClientManager) × (erase_client p m ≡ some next) × Tabled m (gone (m.store p) v) next
  unfolding erase_client
  erase_client-gone =
      three (erase-Models m.openid2clients v.openids ok.openids (m.store p).openid)
        (erase-Models m.cuid2clients v.cuids ok.cuids (m.store p).cuid)
        (erase-Models m.ccid2clients v.ccids ok.ccids (m.store p).ccid)
    where
      three :
          Erased m.openid2clients v.openids ok.openids
            (m.store p).openid
            (erase (m.store p).openid m.openid2clients)
          → Erased m.cuid2clients v.cuids ok.cuids
              (m.store p).cuid
              (erase (m.store p).cuid m.cuid2clients)
          → Erased m.ccid2clients v.ccids ok.ccids
              (m.store p).ccid
              (erase (m.store p).ccid m.ccid2clients)
          → (next : ClientManager) × (erase_client p m ≡ some next)
            × Tabled m (gone (m.store p) v) next
      three (a, d, x) (b, e, y) (c, f, z) = (
        tables m a b c,
        ap
              (λ r.
                with_ccids (with_cuids (with_openids m r) (erase (m.store p).cuid m.cuid2clients))
                  (erase (m.store p).ccid m.ccid2clients))
              d
            ∙ ap
                (λ r.
                  with_ccids (with_cuids (some (record m { openid2clients = a })) r)
                    (erase (m.store p).ccid m.ccid2clients))
                e
            ∙ ap (with_ccids (some (record m { openid2clients = a; cuid2clients = b }))) f,
        (a, b, c, refl, x, y, z),
      )
