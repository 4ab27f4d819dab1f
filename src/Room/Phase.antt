-- ===== src/Room/Phase.antt =====
-- The life of a room, with its players left out: the status, the rounds played and the rounds
-- asked for. The handlers are those of water13_card.cpp and water13.cpp.
pub mod Ballots
pub mod QuickStarts
pub mod Rounds
pub mod Steps
pub mod Timers
pub mod Invariant
use chess_games.Prelude.{Option, none, some, ℕ, ◌+◌, ◌<◌, ◌≡◌, ◌≢◌, ◌≤◌, ◌⊎◌}
use chess_games.Room.Deal.{
  GameStatus, Room, closed, play, prepare, quick_start, sel_banker, settle, settle_all, vote,
}

pub record Phase : Type 0 where
  pub status : GameStatus
  pub round : ℕ
  pub rounds : ℕ

abbrev pub phase : Room → Phase
phase room = record { status = room.status; round = room.round; rounds = room.attr.rounds }

-- The statuses in which a round may start, and those in which a ballot may.
pub data CanStart : GameStatus → Type 0 where
  from_prepare : CanStart prepare
  from_quick_start : CanStart quick_start
  from_settle : CanStart settle

-- A ballot needs a game that has begun.
pub data CanVote : GameStatus → ℕ → Type 0 where
  in_play : {n : ℕ} → CanVote play n
  in_settle : {n : ℕ} → CanVote settle n
  in_vote : {n : ℕ} → CanVote vote n
  in_prepare : {n : ℕ} → n ≢ 0 → CanVote prepare n

-- One step in the life of a room.
pub data Move (p q : Phase) : Type 0 where
  stay : q ≡ p → Move p q
  start :
      (s : GameStatus)
      → (s ≡ play) ⊎ (s ≡ sel_banker)
      → CanStart p.status
      → q ≡ record p { status = s; round = p.round + 1 }
      → Move p q
  ask_start : p.status ≡ prepare → q ≡ record p { status = quick_start } → Move p q
  refuse_start : p.status ≡ quick_start → q ≡ record p { status = prepare } → Move p q
  choose_banker :
      p.status ≡ sel_banker → q ≡ record p { status = GameStatus.sel_multiple } → Move p q
  deal_rest : p.status ≡ GameStatus.sel_multiple → q ≡ record p { status = play } → Move p q
  score : p.status ≡ play → p.round < p.rounds → q ≡ record p { status = settle } → Move p q
  score_last :
      p.status ≡ play → p.rounds ≤ p.round → q ≡ record p { status = settle_all } → Move p q
  sponsor : CanVote p.status p.round → q ≡ record p { status = vote } → Move p q
  oppose : CanVote p.status p.round → q ≡ record p { status = play } → Move p q
  agree : CanVote p.status p.round → q ≡ record p { status = settle_all } → Move p q
  give_up_room :
      (p.status ≡ prepare) ⊎ (p.status ≡ vote) ⊎ (p.status ≡ settle_all)
      → q ≡ record p { status = closed }
      → Move p q
  renew : p.status ≡ settle_all → q ≡ record p { status = prepare; round = 0 } → Move p q

-- A step of the room, if it has a result.
pub data Moves (room : Room) : Option Room → Type 0 where
  crash : Moves room none
  moved : {next : Room} → Move (phase room) (phase next) → Moves room (some next)
