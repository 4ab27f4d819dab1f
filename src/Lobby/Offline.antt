-- ===== src/Lobby/Offline.antt =====
-- What `ClientManager::timerExecAll` does with clients that are off line.
use chess_games.Lobby.Ticks.{erase_all, is_offline_long, offline_clients, timer_exec_all}
use chess_games.Prelude.{
  Bool, List, Option, [], arith, false, get_elem?, if◌then◌else◌, inl, ltb, none, not, refl, some,
  suc, true, zero, ℕ, ◌&&◌, ◌+◌, ◌==◌, ◌∙◌, ◌∷◌, ◌≡◌,
}
use chess_games.FastMap.{find}
use chess_games.Lobby.Clients.{Client, ClientManager}
use chess_games.Lobby.Tables.{Shows, View}
use chess_games.Lobby.Indexed.{IsIndexed}
use chess_games.Lobby.Admitted.{IsManaged}
use chess_games.Lobby.Swept.{
  AreWhole, IsWhole, Swept, and_client, erase_all-Swept, has_cuid, no_clients,
}

if-AreWhole :
    {store : ℕ → Client} {v : View} (b : Bool) (p : ℕ) (l : List ℕ)
    → IsWhole store v p
    → AreWhole store v l
    → AreWhole store v (if b then p ∷ l else l)
if-AreWhole true p l whole more = and_client whole more
if-AreWhole false p l whole more = more

-- The entry of a client after the timer: it goes if the client has no room and went off line less
-- than 600 seconds ago.
abbrev pub entry_after : ℕ → (ℕ → Client) → Option ℕ → Option ℕ
entry_after now store none = none
entry_after now store (some p) =
    let c = store p in
    if (c.roomid == 0) && (not (c.offline_time == 0) && ltb now (c.offline_time + 600))
    then none
    else some p

module _ (now : ℕ) (m : ClientManager) (v : View) (ok : IsManaged m v) where
  -- The items of a table are its entries.
  items-entries : (i c p : ℕ) → get_elem? m.cuid2clients.items i ≡ some (c, p) → v.cuids c ≡ some p
  unfolding find
  items-entries i c p e = ground (arith, e, ok.0.cuids.finds c, ok.0.cuids.agrees.there c i)

  Entries : List (ℕ × ℕ) → Type 0
  Entries l = (i c p : ℕ) → get_elem? l i ≡ some (c, p) → v.cuids c ≡ some p

  offline-AreWhole :
      (l : List (ℕ × ℕ)) → Entries l → AreWhole m.store v (offline_clients now m.store l)
  unfolding Entries offline_clients
  offline-AreWhole [] h = no_clients
  offline-AreWhole (x ∷ l) h =
      if-AreWhole (is_offline_long now (m.store x.1)) x.1 (offline_clients now m.store l)
        (inl (ok.1.by_cuid x.0 x.1 (h 0 x.0 x.1 refl)).1) (offline-AreWhole l (λ i. h (suc i)))

  stays-has_cuid :
      (l : List (ℕ × ℕ))
      → Entries l
      → (k p : ℕ) → v.cuids k ≡ some p
      → is_offline_long now (m.store p) ≡ false
      → has_cuid m.store k (offline_clients now m.store l) ≡ false
  unfolding Entries offline_clients has_cuid
  stays-has_cuid [] h k p e stays = refl
  stays-has_cuid (x ∷ l) h k p e stays = ground (
    arith,
    e,
    stays,
    stays-has_cuid l (λ i. h (suc i)) k p e stays,
    ok.1.by_cuid x.0 x.1 (h 0 x.0 x.1 refl),
  )

  goes-has_cuid :
      (l : List (ℕ × ℕ)) (i k p : ℕ)
      → get_elem? l i ≡ some (k, p)
      → (m.store p).cuid ≡ k
      → is_offline_long now (m.store p) ≡ true
      → has_cuid m.store k (offline_clients now m.store l) ≡ true
  unfolding offline_clients has_cuid
  goes-has_cuid [] i k p e own long = absurd (ground (arith, e))
  goes-has_cuid (x ∷ l) zero k p e own long = ground (arith, e, own, long)
  goes-has_cuid (x ∷ l) (suc i) k p e own long = ground (arith, goes-has_cuid l i k p e own long)

  -- The place of a client in the table.
  goes-at :
      (i k p : ℕ)
      → m.cuid2clients.index k ≡ some i
      → v.cuids k ≡ some p
      → get_elem? m.cuid2clients.items i ≡ some (k, p)
  unfolding find
  goes-at i k p a e = ground (arith, a, e, ok.0.cuids.finds k, ok.0.cuids.agrees.here k i a)

  long-has_cuid :
      (k p : ℕ) (o : Option ℕ)
      → m.cuid2clients.index k ≡ o
      → v.cuids k ≡ some p
      → is_offline_long now (m.store p) ≡ true
      → has_cuid m.store k (offline_clients now m.store m.cuid2clients.items) ≡ true
  unfolding find
  long-has_cuid k p none a e long = absurd (ground (arith, a, e, ok.0.cuids.finds k))
  long-has_cuid k p (some i) a e long =
      goes-has_cuid m.cuid2clients.items i k p (goes-at i k p a e) (ok.1.by_cuid k p e).0 long

  entry-entry_after :
      (k : ℕ) (o : Option ℕ)
      → v.cuids k ≡ o
      → (if has_cuid m.store k (offline_clients now m.store m.cuid2clients.items)
          then none
          else v.cuids k)
        ≡ entry_after now m.store o
  unfolding Entries is_offline_long
  entry-entry_after k none e = ground (arith, e)
  entry-entry_after k (some p) e = ground (
    arith,
    e,
    long-has_cuid k p (m.cuid2clients.index k) refl e,
    stays-has_cuid m.cuid2clients.items items-entries k p e,
  )

-- The timer over the clients ends without an exception. It takes out of all tables the clients that
-- have no room and went off line less than 600 seconds ago, and no other client: who is off line for
-- longer stays.
pub timer_exec_all-IsManaged :
    (now : ℕ) (m : ClientManager) (v : View)
    → Shows m v
    → IsIndexed m.store m.fresh v
    → (next : ClientManager) × (w : View) × (timer_exec_all now m ≡ some next)
      × IsManaged next w
      × (next.store ≡ m.store)
      × ((k : ℕ) → w.cuids k ≡ entry_after now m.store (v.cuids k))
unfolding timer_exec_all Entries
timer_exec_all-IsManaged now m v shows indexed = goes (
    erase_all-Swept (offline_clients now m.store m.cuid2clients.items) m v (shows, indexed)
      (offline-AreWhole now m v (shows, indexed) m.cuid2clients.items
        (items-entries now m v (shows, indexed))))
  where
    goes :
        Swept m v
          (offline_clients now m.store m.cuid2clients.items)
          (erase_all (offline_clients now m.store m.cuid2clients.items) (some m))
        → (next : ClientManager) × (w : View) × (erase_all
              (offline_clients now m.store m.cuid2clients.items)
              (some m)
            ≡ some next)
          × IsManaged next w
          × (next.store ≡ m.store)
          × ((k : ℕ) → w.cuids k ≡ entry_after now m.store (v.cuids k))
    goes (next, w, e, managed, same, cuids) = (
      next,
      w,
      e,
      managed,
      same,
      λ k. cuids k ∙ entry-entry_after now m v (shows, indexed) k (v.cuids k) refl,
    )
