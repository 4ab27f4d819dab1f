-- ===== src/Room/Wedge.antt =====
-- What a failed ballot leaves behind when it was called between two rounds.
pub mod Steps
use chess_games.Prelude.{
  All, Bool, Bool-cases, List, Option, [], ap, arith, false, inl, inr, none, not, refl, some, subst,
  true, ℕ, ◌&&◌, ◌==◌, ◌||◌, ◌∷◌, ◌≡◌,
}
use chess_games.Room.Deal.{Room, Seat, is_compare, is_valid, is_witness, play, ready}
use chess_games.Room.Step.{Event, give_up_msg}
use chess_games.Room.Game.{Env, forget, get_player_info, update_info}
use chess_games.Room.Bring.{at_seat, bring_out_of, is_sort, ready_flag_of, set_status}
use chess_games.Score.Total.{some_inj}
use chess_games.Deck.{Card}
use chess_games.Room.Seats.{is_prepare}
use chess_games.Room.Settle.{is_play, is_settle}
use chess_games.Room.QuickStart.{is_quick_start}
use chess_games.Room.Renew.{reply_half_enter_of}

abbrev pub NoSort : Seat → Type 0
NoSort s = is_sort s.status ≡ false

-- A valid player that has not brought out its cards.
abbrev pub has_waiting : List Seat → Bool
has_waiting [] = false
has_waiting (s ∷ l) = (is_valid s && not (is_compare s.status)) || has_waiting l

-- A round that is being played, in which nobody may bring out cards and somebody has to.
pub record IsWedged (room : Room) : Type 0 where
  pub playing : room.status ≡ play
  pub no_sort : All NoSort room.players
  pub waiting : has_waiting room.players ≡ true

-- The event is no wish to give up.
abbrev pub is_give_up : Event → Bool
is_give_up (give_up_msg cuid) = true
is_give_up _ = false

-- The step has a result, and such a room it is.
pub data Wedges : Option Room → Type 0 where
  wedged : {room : Room} → IsWedged room → Wedges (some room)

pub Wedges-next : (o : Option Room) → Wedges o → (next : Room) × (o ≡ some next) × IsWedged next
Wedges-next o (wedged {room} w) = (room, refl, w)

module _ (room : Room) (w : IsWedged room) where
  pub forgets : (cuid : ℕ) → Wedges (some (forget cuid room))
  forgets cuid = wedged (record { playing = w.playing; no_sort = w.no_sort; waiting = w.waiting })

NoSort-get :
    (l : List Seat) (cuid : ℕ) (s : Seat)
    → All NoSort l
    → get_player_info cuid l ≡ some s
    → NoSort s
unfolding get_player_info
NoSort-get [] cuid s a e = cc
NoSort-get (t ∷ l) cuid s a e = elim (Bool-cases (t.cuid == cuid)) [
  | inl f ↦ subst NoSort (some_inj t s (rw f at e)) a.0
  | inr f ↦ NoSort-get l cuid s a.1 (rw f at e)
]

or_keep : (b r r' : Bool) → (r ≡ true → r' ≡ true) → (b || r) ≡ true → (b || r') ≡ true
or_keep true r r' k h = refl
or_keep false r r' k h = k h

or_more : (a b c r : Bool) → ((a && b && c) || r) ≡ true → ((a && true && true) || r) ≡ true
or_more a b c r h = ground arith

accepted_waits :
    (l : List Seat) (cuid : ℕ)
    → has_waiting l ≡ true
    → has_waiting (update_info cuid (set_status ready) l) ≡ true
unfolding update_info
accepted_waits [] cuid h = h
accepted_waits (u ∷ l) cuid h = elim (Bool-cases (u.cuid == cuid)) [
  | inl f ↦ rw f (
      or_more (not (u.cuid == 0)) (not (is_witness u.status)) (not (is_compare u.status))
        (has_waiting l) h)
  | inr f ↦ rw f (or_keep _ _ _ (accepted_waits l cuid) h)
]

NoSort-update :
    (l : List Seat) (cuid : ℕ) → All NoSort l → All NoSort (update_info cuid (set_status ready) l)
unfolding update_info
NoSort-update [] cuid a = tt
NoSort-update (u ∷ l) cuid a = elim (Bool-cases (u.cuid == cuid)) [
  | inl f ↦ rw f (refl, a.1)
  | inr f ↦ rw f (a.0, NoSort-update l cuid a.1)
]

pub bring_out-Wedges :
    (env : Env) (cuid : ℕ) (special : Bool) (cards : List Card) (room : Room) (w : IsWedged room)
    → (o : Option Seat) → get_player_info cuid room.players ≡ o
    → Wedges (at_seat cuid room o (bring_out_of env cuid special cards room))
unfolding bring_out_of
bring_out-Wedges env cuid special cards room w none e = forgets room w cuid
bring_out-Wedges env cuid special cards room w (some s) e =
    let plays : not (is_play room.status) ≡ false = ap (λ st. not (is_play st)) w.playing in
    rw (plays, NoSort-get room.players cuid s w.no_sort e) (wedged w)

pub ready_flag-Wedges :
    (env : Env) (cuid : ℕ) (flag : Bool) (room : Room) (w : IsWedged room) (o : Option Seat)
    → Wedges (at_seat cuid room o (ready_flag_of env cuid flag room))
unfolding ready_flag_of
ready_flag-Wedges env cuid flag room w none = forgets room w cuid
ready_flag-Wedges env cuid flag room w (some s) =
    let quick : is_quick_start room.status ≡ false = ap is_quick_start w.playing in
    let begun : (not (is_prepare room.status) && not (is_settle room.status)) ≡ true =
      ap (λ st. not (is_prepare st) && not (is_settle st)) w.playing in
    elim (Bool-cases (is_witness s.status)) [
      | inl e ↦ rw e (wedged w)
      | inr e ↦ rw (e, quick, begun) (wedged w)
    ]

pub reply-Wedges :
    (env : Env) (cuid : ℕ) (reply : Bool) (room : Room) (w : IsWedged room) (o : Option Seat)
    → IsWedged (reply_half_enter_of env cuid reply room o)
unfolding reply_half_enter_of
reply-Wedges env cuid reply room w none = w
reply-Wedges env cuid reply room w (some s) = elim (Bool-cases (not (is_witness s.status))) [
  | inl e ↦ rw e w
  | inr e ↦ elim (Bool-cases reply) [
    | inl f ↦
        rw (e, f)
          (record {
            playing = w.playing;
            no_sort = NoSort-update room.players cuid w.no_sort;
            waiting = accepted_waits room.players cuid w.waiting;
          })
    | inr f ↦ elim (Bool-cases (env.online s.cuid)) [
      | inl g ↦
          rw (e, f, g) (record { playing = w.playing; no_sort = w.no_sort; waiting = w.waiting })
      | inr g ↦ rw (e, f, g) w
    ]
  ]
]
