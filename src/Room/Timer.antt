-- ===== src/Room/Timer.antt =====
-- `Water13::timerExec`. A time is in seconds, and none lies behind the present.
use chess_games.Prelude.{Bool, Option, if◌then◌else◌, leb, map, some, true, ℕ, ◌+◌}
use chess_games.Room.Deal.{
  GameStatus, Room, Seat, check_all_select_multiple, closed, play, prepare, quick_start, ready,
  sel_banker, settle, settle_all, unvoted, vote,
}
use chess_games.Prelude.Int.{eqb_ℤ, pos}
use chess_games.Room.Game.{Env, abort_game, start_round, update_valid}
use chess_games.Room.Votes.{set_vote}
use chess_games.Room.Bring.{set_status}
use chess_games.Room.Chips.{check_all_chip_in_point}

abbrev pub max_vote_duration : ℕ
max_vote_duration = 180

abbrev pub max_vote_quick_start_duration : ℕ
max_vote_quick_start_duration = 300

abbrev pub max_select_banker_duration : ℕ
max_select_banker_duration = 300

abbrev pub max_select_multiple_duration : ℕ
max_select_multiple_duration = 300

abbrev pub max_wait_next_duration : ℕ
max_wait_next_duration = 120

abbrev pub max_wait_over_duration : ℕ
max_wait_over_duration = 180

-- `elapse >= duration`.
abbrev pub is_over : Env → ℕ → ℕ → Bool
is_over env start duration = leb (start + duration) env.now

abbrev pub least_chip : Seat → Seat
least_chip s = record s { chip_in = if eqb_ℤ s.chip_in (pos 0) then pos 1 else s.chip_in }

abbrev pub least_multiple : Seat → Seat
least_multiple s = record s { multiple = if eqb_ℤ s.multiple (pos 0) then pos 1 else s.multiple }

unfoldable pub timer_exec_in : Env → GameStatus → Room → Option Room
timer_exec_in env prepare room = start_round env room
timer_exec_in env quick_start room =
    if is_over env room.quick_start_time max_vote_quick_start_duration
    then start_round env
        (record room { players = map (set_vote unvoted) room.players; quick_start_time = 0 })
    else some room
timer_exec_in env sel_banker room =
    if is_over env room.sel_banker_time max_select_banker_duration
    then some (
        check_all_chip_in_point env
          (record room { players = map least_chip room.players; sel_banker_time = 0 }))
    else some room
timer_exec_in env GameStatus.sel_multiple room =
    if is_over env room.sel_multiple_time max_select_multiple_duration
    then check_all_select_multiple
        (record room { players = map least_multiple room.players; sel_multiple_time = 0 })
    else some room
timer_exec_in env play room = some room
timer_exec_in env vote room =
    if is_over env room.start_vote_time max_vote_duration
    then some (
        abort_game env
          (record room { players = map (set_vote unvoted) room.players; start_vote_time = 0 }))
    else some room
timer_exec_in env settle room =
    if is_over env room.settle_time max_wait_next_duration
    then start_round env
        (record room { players = update_valid (set_status ready) room.players; settle_time = 0 })
    else some room
timer_exec_in env settle_all room =
    if is_over env room.settle_all_time max_wait_over_duration
    then some (abort_game env (record room { settle_all_time = 0 }))
    else some room
timer_exec_in env closed room = some (record room { expired = true })

unfoldable pub timer_exec : Env → Room → Option Room
timer_exec env room = timer_exec_in env room.status room
