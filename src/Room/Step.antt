-- ===== src/Room/Step.antt =====
-- What can happen to a room: the messages of the clients in it, and the timer.
use chess_games.Prelude.{Bool, List, Option, ℕ}
use chess_games.Room.Deal.{Room, Vote}
use chess_games.Prelude.Int.{ℤ}
use chess_games.Deck.{Card}
use chess_games.Room.Game.{Env}
use chess_games.Room.Votes.{give_up, vote_for_abort}
use chess_games.Room.QuickStart.{ask_quick_start, vote_for_quick_start}
use chess_games.Room.Bring.{bring_out, ready_flag}
use chess_games.Room.Chips.{chip_in_point, select_multiple}
use chess_games.Room.Renew.{renew_reply, renew_room, reply_half_enter}
use chess_games.Room.Timer.{timer_exec}

pub data Event : Type 0 where
  give_up_msg : ℕ → Event
  ready_flag_msg : ℕ → Bool → Event
  bring_out_msg : ℕ → Bool → List Card → Event
  vote_for_abort_msg : ℕ → Vote → Event
  quick_start_msg : ℕ → Event
  vote_for_quick_start_msg : ℕ → Vote → Event
  reply_half_enter_msg : ℕ → Bool → Event
  renew_room_msg : ℕ → ℕ → Event
  renew_reply_msg : ℕ → Bool → Event
  chip_in_point_msg : ℕ → ℤ → Event
  select_multiple_msg : ℕ → ℤ → Event
  timer : Event

-- The handlers that are registered for the messages; none is undefined behaviour.
unfoldable pub step : Env → Event → Room → Option Room
step env (give_up_msg cuid) room = give_up env cuid room
step env (ready_flag_msg cuid flag) room = ready_flag env cuid flag room
step env (bring_out_msg cuid special cards) room = bring_out env cuid special cards room
step env (vote_for_abort_msg cuid v) room = vote_for_abort env cuid v room
step env (quick_start_msg cuid) room = ask_quick_start env cuid room
step env (vote_for_quick_start_msg cuid v) room = vote_for_quick_start env cuid v room
step env (reply_half_enter_msg cuid reply) room = reply_half_enter env cuid reply room
step env (renew_room_msg cuid payor) room = renew_room cuid payor room
step env (renew_reply_msg cuid reply) room = renew_reply cuid reply room
step env (chip_in_point_msg cuid point) room = chip_in_point env cuid point room
step env (select_multiple_msg cuid point) room = select_multiple cuid point room
step env timer room = timer_exec env room
