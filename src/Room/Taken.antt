-- ===== src/Room/Taken.antt =====
-- The hands that players bring out (`bringOut`, water13_card.cpp).
use chess_games.Room.Hands.{count-sort_up}
use chess_games.Score.Total.{some_inj}
use chess_games.Prelude.{
  Bool, Bool-cases, List, Option, [], ap, arith, count, drop, false, if◌then◌else◌, inl, inr,
  length, none, not, refl, some, sym, take, true, ℕ, ◌&&◌, ◌==◌, ◌∙◌, ◌∷◌, ◌≡◌, ◌≢◌, ◌⊎◌,
}
use chess_games.Deck.{BrandInfo, Card, cmp_brand_info}
use chess_games.Score.Players.{◌>>=◌}
use chess_games.Room.Deal.{GameStatus, PlayerStatus, Room, Seat, play}
use chess_games.Room.Settle.{is_play, try_settle_game}
use chess_games.Room.Bring.{
  bring_legal, bring_out, bring_out_of, brought, is_sort, legal_rows, same_cards,
}
use chess_games.Deck.Ghost.{brand_info}
use chess_games.Room.Create.{sort_up}
use chess_games.Room.Game.{Env, get_player_info, update_info}
use chess_games.Room.Step.{bring_out_msg, step}

-- The rows of a hand without a special brand: each one has a brand, and none beats the next.
pub record IsAscending (cards : List Card) : Type 0 where
  pub head : BrandInfo
  pub middle : BrandInfo
  pub tail : BrandInfo
  pub has_head : brand_info (take 3 cards) ≡ some head
  pub has_middle : brand_info (take 5 (drop 3 cards)) ≡ some middle
  pub has_tail : brand_info (take 5 (drop 8 cards)) ≡ some tail
  pub head_below : cmp_brand_info head middle ≢ 1
  pub middle_below : cmp_brand_info middle tail ≢ 1

-- What a hand must be for the seat that brings it out.
pub record IsTaken (special : Bool) (cards : List Card) (room : Room) (s : Seat) : Type 0 where
  pub playing : room.status ≡ play
  pub sorting : s.status ≡ PlayerStatus.sort
  pub thirteen : length cards ≡ 13
  pub own : (y : Card) → count y cards ≡ count y s.cards
  pub legal : special ≡ false → IsAscending cards

same_cards-eq : (l m : List Card) → same_cards l m ≡ true → l ≡ m
unfolding same_cards
same_cards-eq [] [] h = refl
same_cards-eq [] (d ∷ m) h = cc
same_cards-eq (c ∷ l) [] h = cc
same_cards-eq (c ∷ l) (d ∷ m) h = elim (Bool-cases (c == d)) [
  | inl e ↦
      let first : c ≡ d = ground (arith, e) in
      ap (λ x. x ∷ l) first ∙ ap (λ k. d ∷ k) (same_cards-eq l m (rw e at h))
  | inr e ↦ absurd (ground (arith, e, h))
]

is_play-eq : (st : GameStatus) → not (is_play st) ≡ false → st ≡ play
is_play-eq play h = refl
is_play-eq _ h = cc

is_sort-eq : (st : PlayerStatus) → not (is_sort st) ≡ false → st ≡ PlayerStatus.sort
is_sort-eq PlayerStatus.sort h = refl
is_sort-eq _ h = cc

ascending :
    (cards : List Card) (o0 o1 o2 : Option BrandInfo)
    → brand_info (take 3 cards) ≡ o0
    → brand_info (take 5 (drop 3 cards)) ≡ o1
    → brand_info (take 5 (drop 8 cards)) ≡ o2
    → (o0 >>= λ d0. o1 >>= λ d1.
        o2 >>= λ d2. some (not (cmp_brand_info d0 d1 == 1) && not (cmp_brand_info d1 d2 == 1)))
      ≡ some true
    → IsAscending cards
ascending cards none o1 o2 a b c h = cc
ascending cards (some d0) none o2 a b c h = cc
ascending cards (some d0) (some d1) none a b c h = cc
ascending cards (some d0) (some d1) (some d2) a b c h =
    let both =
      some_inj (not (cmp_brand_info d0 d1 == 1) && not (cmp_brand_info d1 d2 == 1)) true h in
    record {
      head = d0;
      middle = d1;
      tail = d2;
      has_head = a;
      has_middle = b;
      has_tail = c;
      head_below = ground (arith, both);
      middle_below = ground (arith, both);
    }

legal_rows-IsAscending :
    (special : Bool) (cards : List Card)
    → legal_rows special cards ≡ some true
    → special ≡ false
    → IsAscending cards
unfolding legal_rows
legal_rows-IsAscending true cards h e = cc
legal_rows-IsAscending false cards h e =
    ascending cards (brand_info (take 3 cards)) (brand_info (take 5 (drop 3 cards)))
      (brand_info (take 5 (drop 8 cards))) refl refl refl h

-- What the handler does with the cards.
data Taken (env : Env) (cuid : ℕ) (special : Bool) (cards : List Card) (room : Room) (s : Seat)
    : Option Room → Type 0 where
  refused : Taken env cuid special cards room s (some room)
  judged_none : Taken env cuid special cards room s none
  taken :
      IsTaken special cards room s
      → Taken env cuid special cards room s (
          try_settle_game env
            (record room { players = update_info cuid (brought special cards) room.players }))

judged-Taken :
    (env : Env) (cuid : ℕ) (special : Bool) (cards : List Card) (room : Room) (s : Seat)
    (o : Option Bool)
    → (o ≡ some true → IsTaken special cards room s)
    → Taken env cuid special cards room s (bring_legal env cuid special cards room o)
judged-Taken env cuid special cards room s none h = judged_none
judged-Taken env cuid special cards room s (some false) h = refused
judged-Taken env cuid special cards room s (some true) h = taken (h refl)

if-Taken :
    (b : Bool) (env : Env) (cuid : ℕ) (special : Bool) (cards : List Card) (room : Room) (s : Seat)
    (o : Option Room)
    → (b ≡ false → Taken env cuid special cards room s o)
    → Taken env cuid special cards room s (if b then some room else o)
if-Taken true env cuid special cards room s o h = refused
if-Taken false env cuid special cards room s o h = h refl

bring_out_of-Taken :
    (env : Env) (cuid : ℕ) (special : Bool) (cards : List Card) (room : Room) (s : Seat)
    → Taken env cuid special cards room s (bring_out_of env cuid special cards room s)
unfolding bring_out_of
bring_out_of-Taken env cuid special cards room s = if-Taken _ env cuid special cards room s _ λ a.
    if-Taken _ env cuid special cards room s _ λ b.
      if-Taken (not (length cards == 13)) env cuid special cards room s _ λ c.
        if-Taken (not (same_cards (sort_up cards) s.cards)) env cuid special cards room s _ λ d.
          judged-Taken env cuid special cards room s (legal_rows special cards) λ e. record {
            playing = is_play-eq room.status a;
            sorting = is_sort-eq s.status b;
            thirteen = ground (arith, c);
            own = λ y.
                sym (count-sort_up y cards)
                ∙ ap (count y) (same_cards-eq (sort_up cards) s.cards (ground (arith, d)));
            legal = legal_rows-IsAscending special cards e;
          }

Taken-next :
    (env : Env) (cuid : ℕ) (special : Bool) (cards : List Card) (room next : Room) (s : Seat)
    (o : Option Room)
    → Taken env cuid special cards room s o
    → o ≡ some next
    → (next ≡ room)
      ⊎ (IsTaken special cards room s
          × (try_settle_game env
                (record room { players = update_info cuid (brought special cards) room.players })
              ≡ some next))
Taken-next env cuid special cards room next s o refused e = inl (sym (some_inj room next e))
Taken-next env cuid special cards room next s o judged_none e = cc
Taken-next env cuid special cards room next s o (taken h) e = inr (h, e)

-- The cards that a seated client brings out either change nothing, or are thirteen cards that it
-- was dealt, each as often as dealt, in a round that it still sorts them for, and without a
-- special brand no row beats the next one; then the seat has them, and the round is settled if
-- it is over.
pub bring_out-IsTaken :
    (env : Env) (cuid : ℕ) (special : Bool) (cards : List Card) (room next : Room) (s : Seat)
    → get_player_info cuid room.players ≡ some s
    → step env (bring_out_msg cuid special cards) room ≡ some next
    → (next ≡ room)
      ⊎ (IsTaken special cards room s
          × (try_settle_game env
                (record room { players = update_info cuid (brought special cards) room.players })
              ≡ some next))
unfolding step bring_out
bring_out-IsTaken env cuid special cards room next s found h =
    Taken-next env cuid special cards room next s (bring_out_of env cuid special cards room s)
      (bring_out_of-Taken env cuid special cards room s) (rw found at h)
