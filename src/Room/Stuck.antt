-- ===== src/Room/Stuck.antt =====
-- The banker's game does not go on when the time to choose a multiple is over.
use chess_games.Prelude.{
  All, Bool, List, Option, [], ap, arith, false, if◌then◌else◌, map, not, refl, some, true, ℕ, ◌&&◌,
  ◌+◌, ◌==◌, ◌∙◌, ◌∷◌, ◌≡◌, ◌≤◌,
}
use chess_games.Room.Deal.{
  GameStatus, Room, Seat, check_all_select_multiple, chosen, is_sel_multiple, is_valid,
  valid_players,
}
use chess_games.Room.Deadline.{le→leb, timer-eq}
use chess_games.Room.Step.{step, timer}
use chess_games.Prelude.Int.{eqb_ℤ, ltb_ℤ, negsuc, pos, ℤ}
use chess_games.Room.Game.{Env}
use chess_games.Room.Timer.{least_multiple, timer_exec_in}
use chess_games.Score.Players.{◌>>=◌}

-- No multiple is negative.
abbrev pub NoDebt : Seat → Type 0
NoDebt s = ltb_ℤ s.multiple (pos 0) ≡ false

-- The timer of the process, at the times of `envs`.
abbrev pub run_timer : List Env → Room → Option Room
run_timer [] room = some room
run_timer (env ∷ envs) room = step env timer room >>= run_timer envs

-- The time is over at once.
record IsStuck (room : Room) : Type 0 where
  waiting : room.status ≡ GameStatus.sel_multiple
  over : room.sel_multiple_time ≡ 0
  no_debt : All NoDebt room.players

least_pos :
    (z : ℤ) → ltb_ℤ z (pos 0) ≡ false → ltb_ℤ (pos 0) (if eqb_ℤ z (pos 0) then pos 1 else z) ≡ true
least_pos (pos n) h = ground arith
least_pos (negsuc n) h = ground arith

and_true : (b c : Bool) → c ≡ true → (b && c) ≡ b
and_true b c h = ground arith

chosen-least :
    (l : List Seat)
    → All NoDebt l
    → chosen (map least_multiple l) ≡ valid_players (map least_multiple l)
unfolding chosen valid_players
chosen-least [] h = refl
chosen-least (s ∷ l) h = rw (and_true (is_valid s) _ (least_pos s.multiple h.0), chosen-least l h.1)

NoDebt-least : (l : List Seat) → All NoDebt l → All NoDebt (map least_multiple l)
NoDebt-least [] h = tt
NoDebt-least (s ∷ l) h = (ground (arith, h.0), NoDebt-least l h.1)

never : (a b : ℕ) → a ≡ b → (a + 1 == b) ≡ false
never a b h = ground arith

unchanged :
    (r : Room)
    → r.status ≡ GameStatus.sel_multiple
    → chosen r.players ≡ valid_players r.players
    → check_all_select_multiple r ≡ some r
unfolding check_all_select_multiple
unchanged r e h =
    let waits : not (is_sel_multiple r.status) ≡ false = ap (λ s. not (is_sel_multiple s)) e in
    rw (waits, never (chosen r.players) (valid_players r.players) h) refl

stuck :
    (env : Env) (room : Room)
    → room.status ≡ GameStatus.sel_multiple
    → room.sel_multiple_time + 300 ≤ env.now
    → All NoDebt room.players
    → (next : Room) × (step env timer room ≡ some next) × IsStuck next
unfolding timer_exec_in
stuck env room e h d =
    let next : Room = record room {
      players = map least_multiple room.players;
      sel_multiple_time = 0;
    } in
    let same : chosen next.players ≡ valid_players next.players = chosen-least room.players d in
    (
      next,
      timer-eq env room GameStatus.sel_multiple e
          ∙ rw (le→leb (room.sel_multiple_time + 300) env.now h) (unchanged next e same),
      record { waiting = e; over = refl; no_debt = NoDebt-least room.players d },
    )

stays-IsStuck :
    (envs : List Env) (room : Room)
    → All (λ (env : Env). 300 ≤ env.now) envs
    → IsStuck room
    → (next : Room) × (run_timer envs room ≡ some next) × IsStuck next
stays-IsStuck [] room h s = (room, refl, s)
stays-IsStuck (env ∷ envs) room h s =
    let late : room.sel_multiple_time + 300 ≤ env.now = omega (arith, s.over, h.0) in
    let (r, er, sr) = stuck env room s.waiting late s.no_debt in
    let (next, en, sn) = stays-IsStuck envs r h.1 sr in (next, rw er en, sn)

-- Once the 300 seconds for the choice of a multiple are over, the timer never takes the room out of
-- that state, however often it runs: it gives the banker a multiple too, and the test for the end
-- wants all valid players but one to have one. (No multiple is negative here.)
pub timer-stuck :
    (env : Env) (envs : List Env) (room : Room)
    → room.status ≡ GameStatus.sel_multiple
    → room.sel_multiple_time + 300 ≤ env.now
    → All NoDebt room.players
    → All (λ (later : Env). 300 ≤ later.now) envs
    → (next : Room) × (run_timer (env ∷ envs) room ≡ some next)
      × (next.status ≡ GameStatus.sel_multiple)
timer-stuck env envs room e h d later =
    let (r, er, sr) = stuck env room e h d in
    let (next, en, sn) = stays-IsStuck envs r later sr in (next, rw er en, sn.waiting)
