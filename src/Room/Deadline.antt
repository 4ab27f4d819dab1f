-- ===== src/Room/Deadline.antt =====
-- What the timer does with a room that its clients leave open.
use chess_games.Prelude.{
  All, List, [], ap, arith, count, false, leb, length, refl, some, subst, suc, sym, true, ℕ, ◌++◌,
  ◌+◌, ◌∙◌, ◌∷◌, ◌≡◌, ◌≤◌,
}
use chess_games.Room.Deal.{
  GameStatus, Room, Seat, all_compared, closed, is_banker_game, may_start, play, ready, settle,
}
use chess_games.Room.Hands.{HasHand, Thirteen, try_start_round-hands}
use chess_games.Room.Step.{step, timer}
use chess_games.Room.Game.{Env, connected, update_valid}
use chess_games.Room.Bring.{set_status}
use chess_games.Room.Timer.{timer_exec, timer_exec_in}
use chess_games.Deck.{Card}
use chess_games.Room.Create.{Config, check_request}

pub le→leb : (a b : ℕ) → a ≤ b → leb a b ≡ true
le→leb a b h = ground arith

pub timer-eq :
    (env : Env) (room : Room) (st : GameStatus)
    → room.status ≡ st
    → step env timer room ≡ timer_exec_in env st room
unfolding step timer_exec
timer-eq env room st e = ap (λ s. timer_exec_in env s room) e

-- The timer closes the room for good, frees its seats, and lets its connected clients go.
abbrev pub IsOver : Env → Room → Type 0
IsOver env room =
    (next : Room) × (step env timer room ≡ some next)
    × (next.status ≡ closed)
    × (next.expired ≡ true)
    × (next.players ≡ [])
    × (next.left ≡ connected env.online room.players ++ room.left)
    × ((later : Env) → step later timer next ≡ some next)

all_compared-ready : (l : List Seat) → all_compared (update_valid (set_status ready) l) ≡ true
unfolding all_compared update_valid
all_compared-ready [] = refl
all_compared-ready (s ∷ l) = ground (arith, all_compared-ready l)

Thirteen-update_valid :
    (l : List Seat) → All Thirteen l → All Thirteen (update_valid (set_status ready) l)
unfolding update_valid
Thirteen-update_valid [] h = tt
Thirteen-update_valid (s ∷ l) h = (ground (arith, h.0), Thirteen-update_valid l h.1)

length-update_valid : (f : Seat → Seat) (l : List Seat) → length (update_valid f l) ≡ length l
unfolding update_valid
length-update_valid f [] = refl
length-update_valid f (s ∷ l) = ap suc (length-update_valid f l)

-- A room of the normal game that waits for its next round starts it once 120 seconds are over, with
-- thirteen cards for everyone who plays, if the shuffle conserves the cards and the room was
-- accepted.
pub timer-starts_round :
    (env : Env) (cfg : Config) (room : Room)
    → ((y : Card) (l : List Card) → count y (env.shuffle l) ≡ count y l)
    → ((l : List Card) → length (env.shuffle l) ≡ length l)
    → check_request cfg room.attr ≡ 0
    → is_banker_game room.attr ≡ false
    → length room.players ≡ room.attr.player_size
    → All Thirteen room.players
    → room.status ≡ settle
    → room.settle_time + 120 ≤ env.now
    → (next : Room) × (step env timer room ≡ some next)
      × (next.status ≡ play)
      × (next.round ≡ room.round + 1)
      × All HasHand next.players
unfolding timer_exec_in
timer-starts_round env cfg room same size ok normal seats whole e h =
    let waiting = record room {
      players = update_valid (set_status ready) room.players;
      settle_time = 0;
    } in
    let (next, run, playing, counted, hands, few) =
      try_start_round-hands env.online env.shuffle env.now cfg waiting 0 same size ok normal
        (length-update_valid (set_status ready) room.players ∙ seats)
        (Thirteen-update_valid room.players whole)
        (subst (λ st. may_start env.online st (update_valid (set_status ready) room.players) ≡ true)
          (sym e) (unfold may_start in all_compared-ready room.players)) in
    (
      next,
      timer-eq env room settle e ∙ (rw (le→leb (room.settle_time + 120) env.now h) run),
      playing,
      counted,
      hands,
    )
