-- ===== src/Room/Wedge/Steps.antt =====
-- No message but a wish to give up ends a wedged round, and no timer does.
use chess_games.Prelude.{
  Bool, Bool-cases, Option, ap, false, if◌then◌else◌, inl, inr, not, refl, some, subst, sym, true,
  ℕ, ◌==◌, ◌∙◌, ◌≡◌,
}
use chess_games.Room.Deal.{GameStatus, Room, Vote, is_sel_multiple, play}
use chess_games.Room.Step.{
  Event, bring_out_msg, chip_in_point_msg, give_up_msg, quick_start_msg, ready_flag_msg,
  renew_reply_msg, renew_room_msg, reply_half_enter_msg, select_multiple_msg, step, timer,
  vote_for_abort_msg, vote_for_quick_start_msg,
}
use chess_games.Room.Game.{Env, forget, get_player_info}
use chess_games.Room.Bring.{bring_out, ready_flag}
use chess_games.Room.Seats.{is_seated}
use chess_games.Room.QuickStart.{
  ask_quick_start, is_quick_start, quick_start_in, vote_for_quick_start,
}
use chess_games.Room.Renew.{is_settle_all, renew_reply, renew_room, reply_half_enter}
use chess_games.Prelude.Int.{ℤ}
use chess_games.Room.Votes.{is_vote, vote_for_abort}
use chess_games.Room.Chips.{chip_in_point, is_sel_banker, select_multiple}
use chess_games.Room.Timer.{timer_exec, timer_exec_in}
use chess_games.Room.Wedge.{
  IsWedged, Wedges, Wedges-next, bring_out-Wedges, forgets, is_give_up, ready_flag-Wedges,
  reply-Wedges, wedged,
}

module _ (env : Env) (room : Room) (w : IsWedged room) where
  closed_test : (f : GameStatus → Bool) → f play ≡ false → not (f room.status) ≡ true
  closed_test f h = ap (λ st. not (f st)) w.playing ∙ ap not h

  seated_or_not :
      (cuid : ℕ) (o : Option Room)
      → Wedges o
      → Wedges (if not (is_seated cuid room.players) then some (forget cuid room) else o)
  seated_or_not cuid o h = elim (Bool-cases (not (is_seated cuid room.players))) [
    | inl e ↦ rw e (forgets room w cuid)
    | inr e ↦ rw e h
  ]

  vote-Wedges : (cuid : ℕ) (v : Vote) → Wedges (vote_for_abort env cuid v room)
  unfolding vote_for_abort
  vote-Wedges cuid v = seated_or_not cuid _ (rw (closed_test is_vote refl) (wedged w))

  ask-Wedges : (cuid : ℕ) → Wedges (ask_quick_start env cuid room)
  unfolding ask_quick_start
  ask-Wedges cuid = seated_or_not cuid _ (
      subst (λ st. Wedges (quick_start_in env cuid st room)) (sym w.playing)
        (unfold quick_start_in in wedged w))

  quick_vote-Wedges : (cuid : ℕ) (v : Vote) → Wedges (vote_for_quick_start env cuid v room)
  unfolding vote_for_quick_start
  quick_vote-Wedges cuid v = seated_or_not cuid _ (rw (closed_test is_quick_start refl) (wedged w))

  renew_room-Wedges : (cuid payor : ℕ) → Wedges (renew_room cuid payor room)
  unfolding renew_room
  renew_room-Wedges cuid payor =
      seated_or_not cuid _ (elim (Bool-cases (not (room.new_owner_id == 0))) [
        | inl e ↦ rw e (wedged w)
        | inr e ↦ rw (e, closed_test is_settle_all refl) (wedged w)
      ])

  renew_reply-Wedges : (cuid : ℕ) (reply : Bool) → Wedges (renew_reply cuid reply room)
  unfolding renew_reply
  renew_reply-Wedges cuid reply = rw (closed_test is_settle_all refl) (wedged w)

  chip-Wedges : (cuid : ℕ) (point : ℤ) → Wedges (chip_in_point env cuid point room)
  unfolding chip_in_point
  chip-Wedges cuid point = rw (closed_test is_sel_banker refl) (wedged w)

  multiple-Wedges : (cuid : ℕ) (point : ℤ) → Wedges (select_multiple cuid point room)
  unfolding select_multiple
  multiple-Wedges cuid point = rw (closed_test is_sel_multiple refl) (wedged w)

  timer-Wedges : Wedges (timer_exec env room)
  unfolding timer_exec
  timer-Wedges =
      subst (λ st. Wedges (timer_exec_in env st room)) (sym w.playing)
        (unfold timer_exec_in in wedged w)

events-Wedges :
    (env : Env) (e : Event) (room : Room)
    → is_give_up e ≡ false
    → IsWedged room
    → Wedges (step env e room)
unfolding step reply_half_enter ready_flag bring_out
events-Wedges env (give_up_msg cuid) room g w = cc
events-Wedges env (ready_flag_msg cuid flag) room g w =
    ready_flag-Wedges env cuid flag room w (get_player_info cuid room.players)
events-Wedges env (bring_out_msg cuid special cards) room g w =
    bring_out-Wedges env cuid special cards room w (get_player_info cuid room.players) refl
events-Wedges env (vote_for_abort_msg cuid v) room g w = vote-Wedges env room w cuid v
events-Wedges env (quick_start_msg cuid) room g w = ask-Wedges env room w cuid
events-Wedges env (vote_for_quick_start_msg cuid v) room g w = quick_vote-Wedges env room w cuid v
events-Wedges env (reply_half_enter_msg cuid reply) room g w =
    wedged (reply-Wedges env cuid reply room w (get_player_info cuid room.players))
events-Wedges env (renew_room_msg cuid payor) room g w = renew_room-Wedges env room w cuid payor
events-Wedges env (renew_reply_msg cuid reply) room g w = renew_reply-Wedges env room w cuid reply
events-Wedges env (chip_in_point_msg cuid point) room g w = chip-Wedges env room w cuid point
events-Wedges env (select_multiple_msg cuid point) room g w = multiple-Wedges env room w cuid point
events-Wedges env timer room g w = timer-Wedges env room w

-- A round in which nobody may bring out cards and somebody has to stays so, whatever comes but a
-- wish to give up: each message and the timer has a result, and none lets the game go on.
pub step-IsWedged :
    (env : Env) (e : Event) (room : Room)
    → IsWedged room
    → is_give_up e ≡ false
    → (next : Room) × (step env e room ≡ some next) × IsWedged next
step-IsWedged env e room w g = Wedges-next (step env e room) (events-Wedges env e room g w)
