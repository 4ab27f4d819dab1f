-- ===== src/Lobby/Swept.antt =====
-- What it means for the tables of clients that some of them are erased.
use chess_games.Prelude.{
  Bool, List, Option, [], ap, arith, false, if◌then◌else◌, inl, inr, none, refl, some, subst, sym,
  ℕ, ◌==◌, ◌||◌, ◌∙◌, ◌∷◌, ◌≡◌, ◌⊎◌,
}
use chess_games.FastMap.{FastMap}
use chess_games.Lobby.Clients.{Client, ClientManager, erase_client}
use chess_games.Lobby.Ticks.{erase_all}
use chess_games.Lobby.Tables.{Tabled, View, erase_client-gone, gone, tables}
use chess_games.Lobby.Indexed.{IsIndexed, IsKnown, gone-IsIndexed, keys_differ}
use chess_games.Lobby.Admitted.{IsManaged}

-- A client of which each table has the entry, or none of them has one under its keys.
abbrev pub IsWhole : (ℕ → Client) → View → ℕ → Type 0
IsWhole store v p =
    IsKnown store v p
    ⊎ (v.openids (store p).openid ≡ none)
      × (v.cuids (store p).cuid ≡ none)
      × (v.ccids (store p).ccid ≡ none)

module _ (store : ℕ → Client) (fresh : ℕ) (v : View) (ok : IsIndexed store fresh v) (p : ℕ) where
  gone-IsWhole :
      IsWhole store v p → (j : ℕ) → IsWhole store v j → IsWhole store (gone (store p) v) j
  gone-IsWhole (inl known) j (inl other) =
      ground (arith, known, other, keys_differ store fresh v ok p known j other)
  gone-IsWhole (inr (x, y, z)) j (inl other) = ground (arith, x, y, z, other)
  gone-IsWhole whole j (inr (x, y, z)) = ground (arith, x, y, z)

  whole-IsIndexed : IsWhole store v p → IsIndexed store fresh (gone (store p) v)
  whole-IsIndexed (inl known) = gone-IsIndexed store fresh v ok p known
  whole-IsIndexed (inr (x, y, z)) = record {
    by_openid = λ k j h. ground (arith, x, y, z, h, ok.by_openid k j);
    by_cuid = λ k j h. ground (arith, x, y, z, h, ok.by_cuid k j);
    by_ccid = λ k j h. ground (arith, x, y, z, h, ok.by_ccid k j);
  }

-- A client of the list has the cuid.
unfoldable pub has_cuid : (ℕ → Client) → ℕ → List ℕ → Bool
has_cuid store k [] = false
has_cuid store k (p ∷ l) = ((store p).cuid == k) || has_cuid store k l

-- Each client of the list is whole.
pub data AreWhole (store : ℕ → Client) (v : View) : List ℕ → Type 0 where
  no_clients : AreWhole store v []
  and_client :
      {p : ℕ} {l : List ℕ} → IsWhole store v p → AreWhole store v l → AreWhole store v (p ∷ l)

gone-AreWhole :
    (store : ℕ → Client) (fresh : ℕ) (v : View)
    → IsIndexed store fresh v
    → (p : ℕ) → IsWhole store v p
    → (l : List ℕ) → AreWhole store v l
    → AreWhole store (gone (store p) v) l
gone-AreWhole store fresh v ok p whole [] no_clients = no_clients
gone-AreWhole store fresh v ok p whole (j ∷ l) (and_client other more) =
    and_client (gone-IsWhole store fresh v ok p whole j other)
      (gone-AreWhole store fresh v ok p whole l more)

-- The clients with the cuids of `l` go, and nothing else changes.
abbrev pub Swept : ClientManager → View → List ℕ → Option ClientManager → Type 0
Swept m v l r =
    (next : ClientManager) × (w : View) × (r ≡ some next)
    × IsManaged next w
    × (next.store ≡ m.store)
    × ((k : ℕ) → w.cuids k ≡ (if has_cuid m.store k l then none else v.cuids k))

module _ (p : ℕ) (l : List ℕ) (m : ClientManager) (v : View) (ok : IsManaged m v) where
  on-Swept :
      Swept m (gone (m.store p) v) l (erase_all l (erase_client p m))
      → Swept m v (p ∷ l) (erase_all l (erase_client p m))
  unfolding has_cuid
  on-Swept (next, w, e, managed, same, cuids) =
      (next, w, e, managed, same, λ k. cuids k ∙ ground arith)

  after-Swept :
      ((a b c : FastMap ℕ)
        → IsManaged (tables m a b c) (gone (m.store p) v)
        → Swept m (gone (m.store p) v) l (erase_all l (some (tables m a b c))))
      → IsWhole m.store v p
      → (next : ClientManager) × (erase_client p m ≡ some next) × Tabled m (gone (m.store p) v) next
      → Swept m (gone (m.store p) v) l (erase_all l (erase_client p m))
  after-Swept go whole (next, e, (a, b, c, f, x, y, z)) =
      subst (λ r. Swept m (gone (m.store p) v) l (erase_all l r)) (sym (e ∙ ap some f))
        (go a b c (
          record { openids = x; cuids = y; ccids = z },
          whole-IsIndexed m.store m.fresh v ok.1 p whole,
        ))

pub erase_all-Swept :
    (l : List ℕ) (m : ClientManager) (v : View)
    → IsManaged m v
    → AreWhole m.store v l
    → Swept m v l (erase_all l (some m))
unfolding has_cuid
erase_all-Swept [] m v ok no_clients = (m, v, refl, ok, refl, λ k. refl)
erase_all-Swept (p ∷ l) m v ok (and_client whole more) = on-Swept p l m v ok (
    after-Swept p l m v ok
      (λ a b c managed.
        erase_all-Swept l (tables m a b c) (gone (m.store p) v) managed
          (gone-AreWhole m.store m.fresh v ok.1 p whole l more))
      whole (erase_client-gone m v ok.0 p))
