-- ===== src/Room/Phase/Timers.antt =====
-- What the timer does is one step in the life of its room, and so is every event.
use chess_games.Prelude.{Bool-cases, Option, inl, inr, map, refl, some, subst, sym, true, ◌≡◌}
use chess_games.Room.Deal.{
  GameStatus, Room, closed, play, prepare, quick_start, sel_banker, settle, settle_all, vote,
}
use chess_games.Room.Phase.{
  CanStart, Move, Moves, crash, from_prepare, from_quick_start, from_settle, give_up_room, moved,
  phase, stay,
}
use chess_games.Room.Phase.Ballots.{give_up-Moves, start_round-Moves, vote_for_abort-Moves}
use chess_games.Room.Phase.QuickStarts.{ask_quick_start-Moves, vote_for_quick_start-Moves}
use chess_games.Score.Total.{some_inj}
use chess_games.Room.Phase.Rounds.{bring_out-Moves, ready_flag-Moves}
use chess_games.Room.Phase.Steps.{
  check_chip-Moves, check_multiple-Moves, chip_in_point-Moves, renew_reply-Moves, renew_room-Moves,
  reply_half_enter-Moves, select_multiple-Moves,
}
use chess_games.Room.Game.{Env, abort_game, get_player_info}
use chess_games.Room.Renew.{reply_half_enter}
use chess_games.Room.Timer.{
  is_over, least_chip, max_select_banker_duration, max_select_multiple_duration, max_vote_duration,
  max_vote_quick_start_duration, max_wait_next_duration, max_wait_over_duration, timer_exec,
  timer_exec_in,
}
use chess_games.Room.Step.{
  Event, bring_out_msg, chip_in_point_msg, give_up_msg, quick_start_msg, ready_flag_msg,
  renew_reply_msg, renew_room_msg, reply_half_enter_msg, select_multiple_msg, step, timer,
  vote_for_abort_msg, vote_for_quick_start_msg,
}

timer_exec_in-Moves :
    (env : Env) (st : GameStatus) (room : Room)
    → room.status ≡ st
    → Moves room (timer_exec_in env st room)
unfolding timer_exec_in abort_game
timer_exec_in-Moves env prepare room e =
    start_round-Moves env room room (subst CanStart (sym e) from_prepare) (refl, refl) (stay refl)
timer_exec_in-Moves env quick_start room e =
    elim (Bool-cases (is_over env room.quick_start_time max_vote_quick_start_duration)) [
      | inl f ↦ rw f (
          start_round-Moves env room _ (subst CanStart (sym e) from_quick_start) (refl, refl)
            (stay refl))
      | inr f ↦ rw f (moved (stay refl))
    ]
timer_exec_in-Moves env sel_banker room e =
    elim (Bool-cases (is_over env room.sel_banker_time max_select_banker_duration)) [
      | inl f ↦ rw f (
          moved (
            check_chip-Moves env
              (record room { players = map least_chip room.players; sel_banker_time = 0 })))
      | inr f ↦ rw f (moved (stay refl))
    ]
timer_exec_in-Moves env GameStatus.sel_multiple room e =
    elim (Bool-cases (is_over env room.sel_multiple_time max_select_multiple_duration)) [
      | inl f ↦ rw f (check_multiple-Moves room _ refl)
      | inr f ↦ rw f (moved (stay refl))
    ]
timer_exec_in-Moves env play room e = moved (stay refl)
timer_exec_in-Moves env vote room e =
    elim (Bool-cases (is_over env room.start_vote_time max_vote_duration)) [
      | inl f ↦ rw f (moved (give_up_room (inr (inl e)) refl))
      | inr f ↦ rw f (moved (stay refl))
    ]
timer_exec_in-Moves env settle room e =
    elim (Bool-cases (is_over env room.settle_time max_wait_next_duration)) [
      | inl f ↦ rw f (
          start_round-Moves env room _ (subst CanStart (sym e) from_settle) (refl, refl)
            (stay refl))
      | inr f ↦ rw f (moved (stay refl))
    ]
timer_exec_in-Moves env settle_all room e =
    elim (Bool-cases (is_over env room.settle_all_time max_wait_over_duration)) [
      | inl f ↦ rw f (moved (give_up_room (inr (inr e)) refl))
      | inr f ↦ rw f (moved (stay refl))
    ]
timer_exec_in-Moves env closed room e = moved (stay refl)

events :
    (env : Env) (e : Event) (room : Room) → env.is_card_mode ≡ true → Moves room (step env e room)
unfolding step timer_exec reply_half_enter
events env (give_up_msg cuid) room c = give_up-Moves env cuid room
events env (ready_flag_msg cuid flag) room c = ready_flag-Moves env cuid flag room
events env (bring_out_msg cuid special cards) room c = bring_out-Moves env cuid special cards room c
events env (vote_for_abort_msg cuid v) room c = vote_for_abort-Moves env cuid v room
events env (quick_start_msg cuid) room c = ask_quick_start-Moves env cuid room
events env (vote_for_quick_start_msg cuid v) room c = vote_for_quick_start-Moves env cuid v room
events env (reply_half_enter_msg cuid reply) room c =
    moved (reply_half_enter-Moves env cuid reply room (get_player_info cuid room.players))
events env (renew_room_msg cuid payor) room c = renew_room-Moves cuid payor room
events env (renew_reply_msg cuid reply) room c = renew_reply-Moves cuid reply room
events env (chip_in_point_msg cuid point) room c = chip_in_point-Moves env cuid point room
events env (select_multiple_msg cuid point) room c = select_multiple-Moves cuid point room
events env timer room c = timer_exec_in-Moves env room.status room refl

Moves-some :
    (room next : Room) (o : Option Room)
    → Moves room o
    → o ≡ some next
    → Move (phase room) (phase next)
Moves-some room next o crash e = cc
Moves-some room next o (moved {next = r} m) e =
    subst (λ (q : Room). Move (phase room) (phase q)) (some_inj r next e) m

-- Whatever message comes, and whenever the timer runs, a room of cards makes one of the steps of
-- `Move`: the statuses follow one another as there, a round is counted when it starts and at no
-- other time, and the next one or the last settlement comes by the number of rounds.
pub step-Move :
    (env : Env) (e : Event) (room next : Room)
    → env.is_card_mode ≡ true
    → step env e room ≡ some next
    → Move (phase room) (phase next)
step-Move env e room next card h = Moves-some room next (step env e room) (events env e room card) h
