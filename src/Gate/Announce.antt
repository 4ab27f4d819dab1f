-- ===== src/Gate/Announce.antt =====
-- What the lobby hears of connections that end.
use chess_games.Prelude.{
  Bool, List, Option, [], ap, arith, false, if◌then◌else◌, none, refl, some, subst, sym, true, ℕ,
  ◌&&◌, ◌++◌, ◌+◌, ◌==◌, ◌||◌, ◌∙◌, ◌∷◌, ◌≡◌,
}
use chess_games.FastMap.{FastMap, erase, find}
use chess_games.FastMap.Refines.{Erased, Models, Models-same, erase-Models, without}
use chess_games.Gate.Clients.{
  Client, ClientManager, Sent, and_sent, client_disconnected, erase_all, erase_client, erased,
  gone_of, login_quest, login_ret, none_dying, timer_exec, with_clients,
}

-- How often the lobby hears that the client with the ccid is gone.
pub heard : ℕ → List Sent → ℕ
heard k [] = 0
heard k (client_disconnected c ∷ l) = (if c == k then 1 else 0) + heard k l
heard k (erased c ∷ l) = heard k l
heard k (login_quest q ∷ l) = heard k l
heard k (login_ret c code ∷ l) = heard k l

-- A client of the list has the ccid.
pub has_ccid : (ℕ → Client) → ℕ → List ℕ → Bool
has_ccid store k [] = false
has_ccid store k (p ∷ l) = ((store p).ccid == k) || has_ccid store k l

abbrev pub is_known : Option ℕ → Bool
is_known none = false
is_known (some p) = true

heard-append : (k : ℕ) (l r : List Sent) → heard k (l ++ r) ≡ heard k l + heard k r
unfolding heard
heard-append k [] r = omega arith
heard-append k (client_disconnected c ∷ l) r = omega (arith, heard-append k l r)
heard-append k (erased c ∷ l) r = heard-append k l r
heard-append k (login_quest q ∷ l) r = heard-append k l r
heard-append k (login_ret c code ∷ l) r = heard-append k l r

-- The clients of `l` are gone from the table that showed `f`, and the lobby heard it of each that
-- the table had, once.
abbrev pub Announced :
    (ℕ → Client) → (ℕ → Option ℕ) → List ℕ → List Sent → Option (List Sent × ClientManager) → Type 0
Announced store f l before r =
    (sent : List Sent) × (next : ClientManager) × (r ≡ some (sent, next))
    × (next.store ≡ store)
    × Models next.clients (λ k. if has_ccid store k l then none else f k)
    × ((k : ℕ)
        → heard k sent ≡ heard k before + (if has_ccid store k l && is_known (f k) then 1 else 0))

-- One client goes.
ErasedClient : ClientManager → (ℕ → Option ℕ) → ℕ → Option (List Sent × ClientManager) → Type 0
ErasedClient g f c r =
    (sent : List Sent) × (q : FastMap ℕ) × (r ≡ some (sent, record g { clients = q }))
    × Models q (without c f)
    × ((k : ℕ) → heard k sent ≡ (if (c == k) && is_known (f k) then 1 else 0))

module _ (g : ClientManager) (f : ℕ → Option ℕ) (ok : Models g.clients f) (c : ℕ) where
  erase_client-ErasedClient : (o : Option ℕ) → f c ≡ o → ErasedClient g f c (erase_client c g)
  unfolding ErasedClient erase_client heard
  erase_client-ErasedClient none e = (
    [],
    g.clients,
    ap (gone_of c g) (ok.finds c ∙ ap some e),
    Models-same g.clients f (without c f) (λ j. ground (arith, e)) ok,
    λ k. ground (arith, e),
  )
  erase_client-ErasedClient (some p) e = goes (erase-Models g.clients f ok c)
    where
      goes : Erased g.clients f ok c (erase c g.clients) → ErasedClient g f c (erase_client c g)
      goes (next, e', more) = (
        client_disconnected c ∷ erased c ∷ [],
        next,
        ap (gone_of c g) (ok.finds c ∙ ap some e) ∙ ap (with_clients c g) e',
        more,
        λ k. ground (arith, e),
      )

module _ (p : ℕ) (l : List ℕ) (sent : List Sent) (g : ClientManager) (f : ℕ → Option ℕ) where
  -- The rest of the list, after its first client is gone.
  announce_rest :
      (s : List Sent) (q : FastMap ℕ)
      → ((k : ℕ) → heard k s ≡ (if ((g.store p).ccid == k) && is_known (f k) then 1 else 0))
      → Announced g.store
          (without (g.store p).ccid f)
          l
          (sent ++ s)
          (erase_all l (some (sent ++ s, record g { clients = q })))
      → Announced g.store f (p ∷ l) sent (erase_all l (some (sent ++ s, record g { clients = q })))
  unfolding has_ccid
  announce_rest s q counts (s', next, e, same, more, rest) = (
    s',
    next,
    e,
    same,
    Models-same next.clients _ _ (λ k. ground arith) more,
    λ k. ground (arith, rest k, heard-append k sent s, counts k),
  )

erase_all-Announced :
    (l : List ℕ) (sent : List Sent) (g : ClientManager) (f : ℕ → Option ℕ)
    → Models g.clients f
    → Announced g.store f l sent (erase_all l (some (sent, g)))
unfolding has_ccid ErasedClient
erase_all-Announced [] sent g f ok = (sent, g, refl, refl, ok, λ k. omega arith)
erase_all-Announced (p ∷ l) sent g f ok =
    first_goes
      (λ s q more.
        erase_all-Announced l (sent ++ s) (record g { clients = q }) (without (g.store p).ccid f)
          more)
      (erase_client-ErasedClient g f ok (g.store p).ccid (f (g.store p).ccid) refl)
  where
    first_goes :
        ((s : List Sent) (q : FastMap ℕ)
          → Models q (without (g.store p).ccid f)
          → Announced g.store
              (without (g.store p).ccid f)
              l
              (sent ++ s)
              (erase_all l (some (sent ++ s, record g { clients = q }))))
        → ErasedClient g f (g.store p).ccid (erase_client (g.store p).ccid g)
        → Announced g.store f
            (p ∷ l)
            sent
            (erase_all l (and_sent sent (erase_client (g.store p).ccid g)))
    first_goes go (s, q, e, more, counts) =
        subst (λ r. Announced g.store f (p ∷ l) sent (erase_all l (and_sent sent r))) (sym e)
          (announce_rest p l sent g f s q counts (go s q more))

-- The timer ends without an exception. The clients that were to be erased are gone, and no others;
-- the lobby hears of each of them once, however often it was to be erased, and of nobody else.
pub timer_exec-Announced :
    (g : ClientManager) (f : ℕ → Option ℕ)
    → Models g.clients f
    → (sent : List Sent) × (next : ClientManager) × (timer_exec g ≡ some (sent, next))
      × (next.dying_clients ≡ [])
      × ((k : ℕ)
          → find k next.clients ≡ some (if has_ccid g.store k g.dying_clients then none else f k))
      × ((k : ℕ)
          → heard k sent ≡ (if has_ccid g.store k g.dying_clients && is_known (f k) then 1 else 0))
unfolding timer_exec heard
timer_exec-Announced g f ok = goes (erase_all-Announced g.dying_clients [] g f ok)
  where
    goes :
        Announced g.store f g.dying_clients [] (erase_all g.dying_clients (some ([], g)))
        → (sent : List Sent) × (next : ClientManager) × (none_dying
              (erase_all g.dying_clients (some ([], g)))
            ≡ some (sent, next))
          × (next.dying_clients ≡ [])
          × ((k : ℕ)
              → find k next.clients
                ≡ some (if has_ccid g.store k g.dying_clients then none else f k))
          × ((k : ℕ)
              → heard k sent
                ≡ (if has_ccid g.store k g.dying_clients && is_known (f k) then 1 else 0))
    goes (sent, next, e, same, more, counts) = (
      sent,
      record next { dying_clients = [] },
      ap none_dying e,
      refl,
      more.finds,
      λ k. counts k ∙ omega arith,
    )
