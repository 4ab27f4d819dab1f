-- ===== src/Lobby/Logins.antt =====
-- What `ClientManager::proto_LoginQuest` does with the tables of clients.
use chess_games.Prelude.{
  Option, ap, arith, false, inl, inr, none, not, refl, some, subst, sym, true, ℕ, ◌<◌, ◌∙◌, ◌≡◌,
  ◌≢◌,
}
use chess_games.Lobby.Clients.{
  Client, ClientManager, erase_client, insert_client, set_client, write,
}
use chess_games.Lobby.Login.{
  Loaded, LoginQuest, RetCode, World, allocate, fields_set, get_client_unique_id, is_stranger,
  load_failed, loaded, logged_in, logged_off, login, login_of, reg_failed, renamed, replaced,
  token_expiried, unknown,
}
use chess_games.Lobby.Tables.{
  Inserted, Shows, Tabled, View, entered, erase_client-gone, gone, insert_client-ccid,
  insert_client-cuid, insert_client-new, insert_client-openid, tables,
}
use chess_games.Lobby.Indexed.{
  IsIndexed, IsKnown, away-IsIndexed, entered-IsIndexed, fresh-IsIndexed, fresh-away,
  gone-IsIndexed, gone-away, keys_kept-IsIndexed,
}
use chess_games.Lobby.Trusted.{Admits, login_of-Admits}
use chess_games.Lobby.Admitted.{
  Answered, IsFilled, IsManaged, IsStranger, Served, Tabled-IsManaged, fields_set-IsFilled,
  if-Answered, stored-Answered, write-same,
}

module _ (w : World) (q : LoginQuest) (start : ClientManager) where
  let_in :
      (m : ClientManager) (v : View) (ok : IsManaged m v) (p : ℕ)
      → IsKnown m.store v p
      → (m.store p).ccid ≡ q.ccid
      → (m.store p).openid ≡ q.openid
      → Answered w q start (logged_in w q p (some (true, m)))
  let_in m v ok p known ccid openid =
      goes (fields_set-IsFilled w q start m v ok p known ccid openid)
    where
      goes :
          IsManaged (set_client p (fields_set q (m.store p)) m) v
            × IsKnown (write p (fields_set q (m.store p)) m.store) v p
            × IsFilled w q start m v ok p (write p (fields_set q (m.store p)) m.store p)
          → Answered w q start (logged_in w q p (some (true, m)))
      goes (managed, more, fill) =
          stored-Answered w q start (set_client p (fields_set q (m.store p)) m) v managed p more
            fill

  module _ (m : ClientManager) (v : View) (ok : IsManaged m v) (p : ℕ)
      (away : (k : ℕ) → v.openids k ≢ some p) (old : p < m.fresh) (ccid : (m.store p).ccid ≡ q.ccid)
      (openid : (m.store p).openid ≡ q.openid) where
    accepted :
        Inserted m (entered p (m.store p) v) true (insert_client p m)
        → v.openids (m.store p).openid ≡ none
        → v.cuids (m.store p).cuid ≡ none
        → v.ccids (m.store p).ccid ≡ none
        → Answered w q start (logged_in w q p (insert_client p m))
    accepted (next, e, (a, b, c, f, s, t, u)) x y z =
        subst (λ r. Answered w q start (logged_in w q p r)) (sym (e ∙ ap (λ n. some (true, n)) f))
          (let_in (tables m a b c) (entered p (m.store p) v)
            (
              record { openids = s; cuids = t; ccids = u },
              entered-IsIndexed m.store m.fresh v ok.1 p away old x y z,
            )
            p (ground arith, ground arith, ground arith) ccid openid)

    turned_down :
        Inserted m v false (insert_client p m)
        → Answered w q start (logged_in w q p (insert_client p m))
    turned_down (next, e, tabled) =
        (reg_failed, next, v, ap (logged_in w q p) e, Tabled-IsManaged m next v tabled ok.1, tt)

    logged_in-Answered : Answered w q start (logged_in w q p (insert_client p m))
    logged_in-Answered =
        at_keys (v.openids (m.store p).openid) (v.cuids (m.store p).cuid) (v.ccids (m.store p).ccid)
          refl refl refl
      where
        at_keys :
            (i j k : Option ℕ)
            → v.openids (m.store p).openid ≡ i
            → v.cuids (m.store p).cuid ≡ j
            → v.ccids (m.store p).ccid ≡ k
            → Answered w q start (logged_in w q p (insert_client p m))
        at_keys none none none x y z = accepted (insert_client-new m v ok.0 p x y z) x y z
        at_keys none none (some u) x y z = turned_down (insert_client-ccid m v ok.0 p u x y z)
        at_keys none (some u) k x y z = turned_down (insert_client-cuid m v ok.0 p u x y)
        at_keys (some u) j k x y z = turned_down (insert_client-openid m v ok.0 p u x)

  module _ (m : ClientManager) (v : View) (ok : IsManaged m v) where
    allocated :
        (c : Client)
        → c.ccid ≡ q.ccid
        → c.openid ≡ q.openid
        → Answered w q start (logged_in w q m.fresh (insert_client m.fresh (allocate c m)))
    allocated c ccid openid =
        logged_in-Answered (allocate c m) v
          (
            record { openids = ok.0.openids; cuids = ok.0.cuids; ccids = ok.0.ccids },
            fresh-IsIndexed m.store m.fresh v c ok.1,
          )
          m.fresh (fresh-away m.store m.fresh v ok.1) (omega arith)
          (ap (λ (d : Client). d.ccid) (write-same m.fresh c m.store) ∙ ccid)
          (ap (λ (d : Client). d.openid) (write-same m.fresh c m.store) ∙ openid)

    abbrev again : ℕ → Client
    again p = record (m.store p) { ccid = q.ccid; name = q.name; sex = q.sex }

    -- The client is in none of the tables while its ccid changes.
    comes_again :
        (p : ℕ) (next : ClientManager)
        → (m.store p).openid ≡ q.openid
        → IsKnown m.store v p
        → p < m.fresh
        → Tabled m (gone (m.store p) v) next
        → Answered w q start (renamed w q p (some next))
    comes_again p next openid known old (a, b, c, e, x, y, z) =
        subst (λ n. Answered w q start (renamed w q p (some n))) (sym e)
          (logged_in-Answered (set_client p (again p) (tables m a b c)) (gone (m.store p) v)
            (
              record { openids = x; cuids = y; ccids = z },
              away-IsIndexed m.store m.fresh (gone (m.store p) v)
                  (gone-IsIndexed m.store m.fresh v ok.1 p known) p (again p)
                  (gone-away m.store m.fresh v ok.1 p known),
            )
            p (gone-away m.store m.fresh v ok.1 p known) old
            (ap (λ (d : Client). d.ccid) (write-same p (again p) m.store))
            (ap (λ (d : Client). d.openid) (write-same p (again p) m.store) ∙ openid))

    renamed-Answered :
        (p : ℕ)
        → (m.store p).openid ≡ q.openid
        → IsKnown m.store v p
        → p < m.fresh
        → Answered w q start (renamed w q p (erase_client p m))
    renamed-Answered p openid known old = goes (erase_client-gone m v ok.0 p)
      where
        goes :
            (next : ClientManager) × (erase_client p m ≡ some next)
              × Tabled m (gone (m.store p) v) next
            → Answered w q start (renamed w q p (erase_client p m))
        goes (next, e, tabled) =
            subst (λ r. Answered w q start (renamed w q p r)) (sym e)
              (comes_again p next openid known old tabled)

  module _ (m : ClientManager) (v : View) (ok : IsManaged m v) (same : start ≡ m) where
    unchanged : (code : RetCode) → Served w q start m v code → Answered w q start (some (code, m))
    unchanged code served = (code, m, v, refl, ok, served)

    known-IsStranger :
        (p : ℕ)
        → v.openids q.openid ≡ some p
        → is_stranger q (m.store p) ≡ true
        → IsStranger w q start v
    known-IsStranger p x e =
        subst (λ n. IsStranger w q n v) (sym same)
          (ground (arith, e), inl (p, x, λ f. ground (arith, e, f)))

    loaded-IsStranger :
        (c : Client)
        → v.openids q.openid ≡ none
        → w.loads ≡ loaded c
        → is_stranger q c ≡ true
        → IsStranger w q start v
    loaded-IsStranger c x l e = (ground (arith, e), inr (c, x, l, λ f. ground (arith, e, f)))

    replaced-Answered :
        (p : ℕ) → v.openids q.openid ≡ some p → Answered w q start (replaced w q m p)
    replaced-Answered p x =
        if-Answered w q start (is_stranger q (m.store p)) _ _
          (λ e. unchanged token_expiried (sym same, known-IsStranger p x e))
          (λ e.
            renamed-Answered (set_client p with_token m) v
              (
                record { openids = ok.0.openids; cuids = ok.0.cuids; ccids = ok.0.ccids },
                keys_kept-IsIndexed m.store m.fresh v ok.1 p with_token refl refl refl,
              )
              p (ground (arith, ok.1.by_openid q.openid p x))
              (ground (arith, ok.1.by_openid q.openid p x))
              (ground (arith, ok.1.by_openid q.openid p x)))
      where
        with_token : Client
        with_token = record (m.store p) { token = q.token }

    logged_off-Answered :
        (l : Loaded)
        → v.openids q.openid ≡ none
        → w.loads ≡ l
        → ((c : Client) → l ≡ loaded c → c.openid ≡ q.openid)
        → Answered w q start (logged_off w q m l)
    logged_off-Answered load_failed x l own = unchanged reg_failed tt
    logged_off-Answered unknown x l own =
        if-Answered w q start (not q.verified) _ _ (λ e. unchanged reg_failed tt)
          (λ e.
            allocated
              (record m { unique_id_counter = (get_client_unique_id w m.unique_id_counter).1 }) v
              (record { openids = ok.0.openids; cuids = ok.0.cuids; ccids = ok.0.ccids }, ok.1) _
              refl refl)
    logged_off-Answered (loaded c) x l own =
        if-Answered w q start (is_stranger q c) _ _
          (λ e. unchanged token_expiried (sym same, loaded-IsStranger c x l e))
          (λ e. allocated m v ok _ refl (own c refl))

    login_of-Answered :
        ((c : Client) → w.loads ≡ loaded c → c.openid ≡ q.openid)
        → (o : Option ℕ) → v.openids q.openid ≡ o
        → Answered w q start (login_of w q m (some o))
    login_of-Answered own none x = logged_off-Answered w.loads x refl own
    login_of-Answered own (some p) x = replaced-Answered p x

-- A login ends without an exception and leaves each client in all three tables under its own keys or
-- in none. Who is let in is known under its new ccid and its openid, and is on line. If the service has
-- not checked the login, a client with a token that is not its own is refused and nothing changes; so
-- is one that is not found anywhere, and nobody else is refused for its token. A client that redis
-- loads has the openid that it is asked for.
pub login-Served :
    (w : World) (q : LoginQuest) (m : ClientManager) (v : View)
    → Shows m v
    → IsIndexed m.store m.fresh v
    → ((c : Client) → w.loads ≡ loaded c → c.openid ≡ q.openid)
    → Answered w q m (login w q m) × Admits w q m v (login w q m)
unfolding login
login-Served w q m v shows indexed own =
    subst (λ r. Answered w q m (login_of w q m r) × Admits w q m v (login_of w q m r))
      (sym (shows.openids.finds q.openid))
      (
        login_of-Answered w q m m v (shows, indexed) refl own (v.openids q.openid) refl,
        login_of-Admits w q m v (v.openids q.openid) refl,
      )
