-- ===== src/Room/Phase/Invariant.antt =====
-- What holds of the rounds of a room at every time.
use chess_games.Prelude.{
  Bool-cases, Option, arith, inl, inr, none, not, refl, some, subst, sym, true, ℕ, ◌&&◌, ◌<◌, ◌==◌,
  ◌||◌, ◌≡◌, ◌≤◌,
}
use chess_games.Room.Deal.{GameStatus, Room, prepare, quick_start, settle}
use chess_games.Room.Phase.{
  CanStart, Move, Phase, agree, ask_start, choose_banker, deal_rest, from_prepare, from_quick_start,
  from_settle, give_up_room, oppose, phase, refuse_start, renew, score, score_last, sponsor, start,
  stay,
}
use chess_games.Room.Phase.Timers.{step-Move}
use chess_games.Room.Seats.{
  Client, RoomInfo, can_pay, empty_seat_index, enter_room, is_prepare, take_seat,
}
use chess_games.Room.Game.{Env}
use chess_games.Room.Step.{Event, step}

pub record IsPhase (p : Phase) : Type 0 where
  pub some_rounds : 1 ≤ p.rounds
  pub bounded : p.round ≤ p.rounds
  pub fresh : p.status ≡ prepare → p.round ≡ 0
  pub fresh_quick : p.status ≡ quick_start → p.round ≡ 0
  pub unfinished : p.status ≡ settle → p.round < p.rounds

round_left :
    (p : Phase) (s : GameStatus) → CanStart s → p.status ≡ s → IsPhase p → p.round < p.rounds
round_left p prepare from_prepare e h = omega (arith, h.fresh e, h.some_rounds)
round_left p quick_start from_quick_start e h = omega (arith, h.fresh_quick e, h.some_rounds)
round_left p settle from_settle e h = h.unfinished e
round_left p _ c e h = elim c [ ]

Move-IsPhase : (p q : Phase) → Move p q → IsPhase p → IsPhase q
Move-IsPhase p q (stay e) h = subst IsPhase (sym e) h
Move-IsPhase p q (start s (inl k) c e) h = ground (arith, round_left p p.status c refl h)
Move-IsPhase p q (start s (inr k) c e) h = ground (arith, round_left p p.status c refl h)
Move-IsPhase p q (ask_start k e) h = ground arith
Move-IsPhase p q (refuse_start k e) h = ground arith
Move-IsPhase p q (choose_banker k e) h = ground arith
Move-IsPhase p q (deal_rest k e) h = ground arith
Move-IsPhase p q (score k l e) h = ground arith
Move-IsPhase p q (score_last k l e) h = ground arith
Move-IsPhase p q (sponsor c e) h = ground arith
Move-IsPhase p q (oppose c e) h = ground arith
Move-IsPhase p q (agree c e) h = ground arith
Move-IsPhase p q (give_up_room k e) h = ground arith
Move-IsPhase p q (renew k e) h = ground arith

-- A room of cards, with whatever clients come in, whatever they send, and whenever the timer runs.
pub data Reach (room : Room) : Room → Type 0 where
  here : Reach room room
  enter :
      {r : Room}
      → Reach room r
      → (fixed : RoomInfo) (c : Client) → Reach room (enter_room fixed r c).1
  event :
      {r next : Room}
      → Reach room r
      → (env : Env) (e : Event) → env.is_card_mode ≡ true
      → step env e r ≡ some next
      → Reach room next

take_seat-phase :
    (fixed : RoomInfo) (r : Room) (c : Client) (o : Option ℕ)
    → phase (take_seat fixed r c o).1 ≡ phase r
unfolding take_seat
take_seat-phase fixed r c none = refl
take_seat-phase fixed r c (some i) = elim (Bool-cases (fixed.is_card_mode && not (can_pay r c))) [
  | inl e ↦ rw e refl
  | inr e ↦ rw e refl
]

enter_room-phase :
    (fixed : RoomInfo) (r : Room) (c : Client) → phase (enter_room fixed r c).1 ≡ phase r
unfolding enter_room
enter_room-phase fixed r c = elim (Bool-cases (not (c.roomid == 0))) [
  | inl e ↦ rw e refl
  | inr e ↦
      elim (Bool-cases (
        not (fixed.is_card_mode && fixed.half_enter)
        && (not (is_prepare r.status) || not (r.round == 0)))) [
          | inl f ↦ rw (e, f) refl
          | inr f ↦ rw (e, f) (take_seat-phase fixed r c (empty_seat_index r.players))
        ]
]

-- A room of cards with one round at least, as it is opened, keeps the count of its rounds within the
-- rounds asked for, has played none before it starts or may start quickly, and has one left while
-- it waits for the next: so whenever it starts a round, the round is one of those asked for.
pub Reach-IsPhase : {room r : Room} → IsPhase (phase room) → Reach room r → IsPhase (phase r)
Reach-IsPhase h here = h
Reach-IsPhase h (enter {r} k fixed c) =
    subst IsPhase (sym (enter_room-phase fixed r c)) (Reach-IsPhase h k)
Reach-IsPhase h (event {r} {next} k env e card s) =
    Move-IsPhase (phase r) (phase next) (step-Move env e r next card s) (Reach-IsPhase h k)
