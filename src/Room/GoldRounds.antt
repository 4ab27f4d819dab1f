-- ===== src/Room/GoldRounds.antt =====
-- Rounds in rooms of gold, which never settle for good and never close.
use chess_games.Room.GoldHands.{
  aborted, gold_bring_legal, gold_bring_out, gold_bring_out_of, gold_give_up, gold_give_up_in,
  next_round,
}
use chess_games.Prelude.{
  Bool, Bool-cases, List, Option, [], ap, arith, false, inl, inr, length, none, not, refl, some,
  subst, suc, sym, true, ℕ, ◌++◌, ◌==◌, ◌∷◌, ◌≡◌, ◌≢◌,
}
use chess_games.Deck.{Card}
use chess_games.Score.Players.{PlayerData}
use chess_games.Room.Deal.{GameStatus, Room, Seat, closed, play, settle_all}
use chess_games.Room.Seats.{clear_seat, is_seated}
use chess_games.Room.Game.{Env, get_player_info, remove_cuid, update_info}
use chess_games.Room.Settle.{
  after_round, all_brought, is_play, is_settle, keep_cards, take_points, try_settle_game,
  with_points,
}
use chess_games.Room.Bring.{at_seat, bring_legal, bring_out, bring_out_of, brought, legal_rows}

data NotSettled : Option Room → Type 0 where
  no_result : NotSettled none
  goes_on : {room : Room} → is_settle room.status ≡ false → NotSettled (some room)

scored-NotSettled :
    (env : Env) (room : Room) (o : Option (List PlayerData))
    → env.is_card_mode ≡ false
    → NotSettled (with_points env room o)
unfolding after_round
scored-NotSettled env room none gold = no_result
scored-NotSettled env room (some l) gold =
    subst
      (λ b. NotSettled (
        after_round b env (record room {
          players = take_points room.players l;
          settle_data = room.settle_data ++ keep_cards room.players l ∷ [];
        })))
      (sym gold) (goes_on refl)

try_settle_game-NotSettled :
    (env : Env) (room : Room)
    → env.is_card_mode ≡ false
    → room.status ≡ play
    → NotSettled (try_settle_game env room)
unfolding try_settle_game
try_settle_game-NotSettled env room gold playing =
    let on : not (is_play room.status) ≡ false = ap (λ st. not (is_play st)) playing in
    elim (Bool-cases (not (all_brought env.online room.players))) [
      | inl f ↦ rw (on, f) (goes_on (ap is_settle playing))
      | inr f ↦ rw (on, f) (scored-NotSettled env room _ gold)
    ]

next_round-same : (env : Env) (o : Option Room) → NotSettled o → next_round env o ≡ o
next_round-same env none no_result = refl
next_round-same env _ (goes_on h) = rw h refl

legal-same :
    (env : Env) (cuid : ℕ) (special : Bool) (cards : List Card) (room : Room) (o : Option Bool)
    → env.is_card_mode ≡ false
    → room.status ≡ play
    → gold_bring_legal env cuid special cards room o ≡ bring_legal env cuid special cards room o
legal-same env cuid special cards room none gold h = refl
legal-same env cuid special cards room (some false) gold h = refl
legal-same env cuid special cards room (some true) gold h = next_round-same env _ (
    try_settle_game-NotSettled env
      (record room { players = update_info cuid (brought special cards) room.players }) gold h)

is_play-eq : (st : GameStatus) → not (is_play st) ≡ false → st ≡ play
is_play-eq play h = refl
is_play-eq _ h = cc

bring_out_of-same :
    (env : Env) (cuid : ℕ) (special : Bool) (cards : List Card) (room : Room) (s : Seat)
    → env.is_card_mode ≡ false
    → gold_bring_out_of env cuid special cards room s ≡ bring_out_of env cuid special cards room s
unfolding gold_bring_out_of bring_out_of
bring_out_of-same env cuid special cards room s gold =
    elim (Bool-cases (not (is_play room.status))) [
      | inl f ↦ rw f refl
      | inr f ↦
          rw
            (
              f,
              legal-same env cuid special cards room (legal_rows special cards) gold
                  (is_play-eq room.status f),
            )
            refl
    ]

at_seat-same :
    (cuid : ℕ) (room : Room) (o : Option Seat) (f g : Seat → Option Room)
    → ((s : Seat) → f s ≡ g s)
    → at_seat cuid room o f ≡ at_seat cuid room o g
at_seat-same cuid room none f g h = refl
at_seat-same cuid room (some s) f g h = h s

-- In a room of gold the call of `nextRound` at the end of its handler never starts a round.
pub gold_bring_out-bring_out :
    (env : Env) (cuid : ℕ) (special : Bool) (cards : List Card) (room : Room)
    → env.is_card_mode ≡ false
    → gold_bring_out env cuid special cards room ≡ bring_out env cuid special cards room
unfolding gold_bring_out bring_out
gold_bring_out-bring_out env cuid special cards room gold =
    at_seat-same cuid room (get_player_info cuid room.players) _ _
      λ s. bring_out_of-same env cuid special cards room s gold

length-clear_seat : (cuid : ℕ) (l : List Seat) → length (clear_seat cuid l) ≡ length l
unfolding clear_seat
length-clear_seat cuid [] = refl
length-clear_seat cuid (s ∷ l) = elim (Bool-cases (s.cuid == cuid)) [
  | inl f ↦ rw f refl
  | inr f ↦ rw f (ap suc (length-clear_seat cuid l))
]

-- The same room but for who sits in it.
pub record IsOpen (room next : Room) : Type 0 where
  pub status : next.status ≡ room.status
  pub expired : next.expired ≡ room.expired
  pub seats : length next.players ≡ length room.players

remove-IsOpen : (cuid : ℕ) (room : Room) → IsOpen room (remove_cuid cuid room)
unfolding remove_cuid
remove-IsOpen cuid room = elim (Bool-cases (is_seated cuid room.players)) [
  | inl f ↦
      rw f (record { status = refl; expired = refl; seats = length-clear_seat cuid room.players })
  | inr f ↦ rw f (record { status = refl; expired = refl; seats = refl })
]

aborted-IsOpen :
    (env : Env) (room next : Room)
    → IsOpen room next
    → length room.players ≢ 0
    → IsOpen room (aborted env next)
aborted-IsOpen env room next h seats =
    let some_seat : (length next.players == 0) ≡ false = ground (arith, h.seats, seats) in
    rw some_seat h

same-IsOpen : (room : Room) → IsOpen room room
same-IsOpen room = record { status = refl; expired = refl; seats = refl }

switch-IsOpen :
    (env : Env) (cuid : ℕ) (st : GameStatus) (room : Room)
    → length room.players ≢ 0
    → IsOpen room (gold_give_up_in env cuid st room)
unfolding gold_give_up_in
switch-IsOpen env cuid GameStatus.prepare room h =
    aborted-IsOpen env room (remove_cuid cuid room) (remove-IsOpen cuid room) h
switch-IsOpen env cuid settle_all room h = remove-IsOpen cuid room
switch-IsOpen env cuid closed room h = remove-IsOpen cuid room
switch-IsOpen env cuid _ room h = same-IsOpen room

-- A room of gold with seats keeps its status and its place in the table, whoever gives it up, the
-- last player included: its seats are freed and not removed.
pub gold_give_up-IsOpen :
    (env : Env) (cuid : ℕ) (room : Room)
    → length room.players ≢ 0
    → IsOpen room (gold_give_up env cuid room)
unfolding gold_give_up
gold_give_up-IsOpen env cuid room h = elim (Bool-cases (not (is_seated cuid room.players))) [
  | inl f ↦ rw f (record { status = refl; expired = refl; seats = refl })
  | inr f ↦ rw f (switch-IsOpen env cuid room.status room h)
]
