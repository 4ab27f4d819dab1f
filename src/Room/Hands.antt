-- ===== src/Room/Hands.antt =====
-- What a round deals in the normal game: every hand is whole and no card is dealt twice.
use chess_games.Prelude.{
  All, Bool, Bool-cases, List, [], arith, count, count-append, drop, false, if◌then◌else◌, inl, inr,
  length, length-append, ltb, refl, some, suc, take, true, zero, ℕ, ◌*◌, ◌++◌, ◌+◌, ◌-◌, ◌==◌, ◌∷◌,
  ◌≡◌, ◌≤◌,
}
use chess_games.Deck.{Card}
use chess_games.Room.Create.{Config, check_request, insert_up, make_deck, sort_up}
use chess_games.Room.Deal.{
  GameStatus, PlayerStatus, Room, Seat, deal_loop, dealt_cards, first_bills, is_banker_game,
  is_witness, may_start, start_play, try_start_round,
}
use chess_games.Room.Enough.{make_deck-enough}

count-insert_up : (x y : ℕ) (l : List ℕ) → count x (insert_up y l) ≡ count x (y ∷ l)
unfolding insert_up
count-insert_up x y [] = refl
count-insert_up x y (z ∷ l) = ground (arith, count-insert_up x y l)

pub count-sort_up : (x : ℕ) (l : List ℕ) → count x (sort_up l) ≡ count x l
unfolding sort_up
count-sort_up x [] = refl
count-sort_up x (y ∷ l) = omega (arith, count-insert_up x y (sort_up l), count-sort_up x l)

length-insert_up : (y : ℕ) (l : List ℕ) → length (insert_up y l) ≡ suc (length l)
unfolding insert_up
length-insert_up y [] = refl
length-insert_up y (z ∷ l) = ground (arith, length-insert_up y l)

pub length-sort_up : (l : List ℕ) → length (sort_up l) ≡ length l
unfolding sort_up
length-sort_up [] = refl
length-sort_up (y ∷ l) = omega (arith, length-insert_up y (sort_up l), length-sort_up l)

length-drop : (n : ℕ) (l : List ℕ) → length (drop n l) ≡ length l - n
length-drop zero l = omega arith
length-drop (suc n) [] = omega arith
length-drop (suc n) (y ∷ l) = omega (arith, length-drop n l)

pub length-take : (n : ℕ) (l : List ℕ) → n ≤ length l → length (take n l) ≡ n
length-take zero l h = refl
length-take (suc n) [] h = omega arith
length-take (suc n) (y ∷ l) h = omega (arith, length-take n l (omega arith))

count-take-drop : (x n : ℕ) (l : List ℕ) → count x (take n l) + count x (drop n l) ≡ count x l
count-take-drop x zero l = omega arith
count-take-drop x (suc n) [] = omega arith
count-take-drop x (suc n) (y ∷ l) = omega (arith, count-take-drop x n l)

drop_all : (n : ℕ) (l : List ℕ) → length l ≤ n → drop n l ≡ []
drop_all zero [] h = refl
drop_all (suc n) [] h = refl
drop_all zero (y ∷ l) h = ground arith
drop_all (suc n) (y ∷ l) h = drop_all n l (omega arith)

ltb_not : (a b : ℕ) → b ≤ a → ltb a b ≡ false
ltb_not a b h = ground arith

-- A hand of thirteen cards is replaced whole.
dealt_hand :
    (x : ℕ) (deck old : List Card)
    → length old ≡ 13
    → 13 ≤ length deck
    → (length (dealt_cards 13 deck old) ≡ 13)
      × (count x (dealt_cards 13 deck old) + count x (drop 13 deck) ≡ count x deck)
dealt_hand x deck old h g =
    let none_left : drop 13 old ≡ [] = drop_all 13 old (omega arith) in
    rw none_left (
      omega (
        arith,
        length-sort_up (take 13 deck ++ []),
        length-append (take 13 deck) [],
        length-take 13 deck g,
      ),
      omega (
        arith,
        count-sort_up x (take 13 deck ++ []),
        count-append x (take 13 deck) [],
        count-take-drop x 13 deck,
      ),
    )

-- How often a card is in the hands of those who play.
abbrev pub in_hands : Card → List Seat → ℕ
in_hands x [] = 0
in_hands x (s ∷ l) = (if is_witness s.status then 0 else count x s.cards) + in_hands x l

-- A seat that plays holds thirteen cards, and has to lay them.
abbrev pub HasHand : Seat → Type 0
HasHand s =
    if is_witness s.status then Unit else ((length s.cards ≡ 13) × (s.status ≡ PlayerStatus.sort))

abbrev pub Thirteen : Seat → Type 0
Thirteen s = length s.cards ≡ 13

-- The loop deals a deck that is long enough to the end and conserves its cards.
pub deal_loop-whole :
    (x : Card) (deck : List Card) (l : List Seat)
    → All Thirteen l
    → length l * 13 ≤ length deck
    → (r : List Seat × List Card) × (deal_loop 13 PlayerStatus.sort deck l ≡ some r)
      × All HasHand r.0
      × (in_hands x r.0 + count x r.1 ≡ count x deck)
unfolding deal_loop
deal_loop-whole x deck [] a h = (([], deck), refl, tt, omega arith)
deal_loop-whole x deck (s ∷ l) a h = elim (Bool-cases (is_witness s.status)) [
  | inl e ↦
      let (r, er, hands, sum) = deal_loop-whole x deck l a.1 (omega arith) in
      ((s ∷ r.0, r.1), rw (e, er) refl, (rw e tt, hands), rw e (omega arith))
  | inr e ↦
      let (r, er, hands, sum) =
        deal_loop-whole x (drop 13 deck) l a.1 (omega (arith, length-drop 13 deck)) in
      let (whole, conserved) = dealt_hand x deck s.cards a.0 (omega arith) in
      (
        (record s { status = PlayerStatus.sort; cards = dealt_cards 13 deck s.cards } ∷ r.0, r.1),
        rw (e, ltb_not (length deck) 13 (omega arith), er) refl,
        ((whole, refl), hands),
        omega arith,
      )
]

-- The room once the hands of the normal game are dealt.
abbrev started : (ℕ → Bool) → Room → List Seat → Room
started online room players = record room {
  status = GameStatus.play;
  round = room.round + 1;
  players = players;
  bills = (if room.round == 0 then first_bills online room room.players else []) ++ room.bills;
}

start_play-normal :
    (online : ℕ → Bool) (now : ℕ) (room : Room) (r : List Seat × List Card)
    → is_banker_game room.attr ≡ false
    → start_play online now room (some r) ≡ some (started online room r.0)
unfolding start_play
start_play-normal online now room r e = rw e refl

-- A round of the normal game that may start, in a room that was accepted and with a shuffle that
-- conserves the cards: the deck is long enough, everyone who plays gets thirteen cards, and no card is in their
-- hands more often than in the deck.
pub try_start_round-hands :
    (online : ℕ → Bool) (shuffle : List Card → List Card) (now : ℕ) (cfg : Config) (room : Room)
    (x : Card)
    → ((y : Card) (l : List Card) → count y (shuffle l) ≡ count y l)
    → ((l : List Card) → length (shuffle l) ≡ length l)
    → check_request cfg room.attr ≡ 0
    → is_banker_game room.attr ≡ false
    → length room.players ≡ room.attr.player_size
    → All Thirteen room.players
    → may_start online room.status room.players ≡ true
    → (next : Room) × (try_start_round online shuffle now room ≡ some next)
      × (next.status ≡ GameStatus.play)
      × (next.round ≡ room.round + 1)
      × All HasHand next.players
      × (in_hands x next.players
          ≤ count x (make_deck room.attr.with_ghost room.attr.player_size room.attr.suits))
unfolding try_start_round
try_start_round-hands online shuffle now cfg room x same size ok normal seats whole go =
    let fresh = make_deck room.attr.with_ghost room.attr.player_size room.attr.suits in
    let (r, er, hands, sum) =
      deal_loop-whole x (shuffle fresh) room.players whole
        (omega (arith, size fresh, make_deck-enough cfg room.attr ok)) in
    (
      started online room r.0,
      rw (go, normal, er) (start_play-normal online now room r normal),
      refl,
      refl,
      hands,
      omega (arith, same x fresh),
    )
