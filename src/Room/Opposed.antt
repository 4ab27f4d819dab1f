-- ===== src/Room/Opposed.antt =====
-- What a ballot that somebody refused leaves behind when it was called between two rounds.
use chess_games.Prelude.{
  All, Bool, Bool-cases, List, Option, [], ap, arith, false, if◌then◌else◌, inl, inr, not, refl,
  some, true, ℕ, ◌==◌, ◌||◌, ◌∙◌, ◌∷◌, ◌≡◌,
}
use chess_games.Score.Players.{◌>>=◌}
use chess_games.Room.Deal.{Room, Seat, Vote, is_valid, nay, play, unvoted, vote}
use chess_games.Room.Seats.{is_seated}
use chess_games.Room.Game.{Env, get_player_info, update_info, update_valid}
use chess_games.Room.Votes.{
  check_all_votes, end_ballot, has_opposition, is_vote, put_vote, set_vote, vote_for_abort,
}
use chess_games.Room.Step.{Event, step, vote_for_abort_msg}
use chess_games.Room.Wedge.{IsWedged, NoSort, has_waiting, is_give_up}
use chess_games.Room.Wedge.Steps.{step-IsWedged}
use chess_games.Score.Total.{some_inj}

-- What comes, each at its time and in the state that the process is then in.
abbrev pub run_events : List (Env × Event) → Room → Option Room
run_events [] room = some room
run_events (x ∷ l) room = step x.0 x.1 room >>= run_events l

runs-IsWedged :
    (l : List (Env × Event)) (room : Room)
    → All (λ (x : Env × Event). is_give_up x.1 ≡ false) l
    → IsWedged room
    → (next : Room) × (run_events l room ≡ some next) × IsWedged next
runs-IsWedged [] room h w = (room, refl, w)
runs-IsWedged (x ∷ l) room h w =
    let (r, er, wr) = step-IsWedged x.0 x.1 room w h.0 in
    let (next, en, wn) = runs-IsWedged l r h.1 wr in (next, rw er en, wn)

or_true : (b c : Bool) → c ≡ true → (b || c) ≡ true
or_true b c h = ground arith

get-is_seated :
    (l : List Seat) (cuid : ℕ) (s : Seat)
    → get_player_info cuid l ≡ some s
    → is_seated cuid l ≡ true
unfolding get_player_info is_seated
get-is_seated [] cuid s e = cc
get-is_seated (t ∷ l) cuid s e = elim (Bool-cases (t.cuid == cuid)) [
  | inl f ↦ rw f refl
  | inr f ↦ rw f (get-is_seated l cuid s (rw f at e))
]

nay-has_opposition :
    (l : List Seat) (cuid : ℕ) (s : Seat)
    → get_player_info cuid l ≡ some s
    → is_valid s ≡ true
    → has_opposition (update_info cuid (set_vote nay) l) ≡ true
unfolding get_player_info update_info has_opposition
nay-has_opposition [] cuid s e v = cc
nay-has_opposition (t ∷ l) cuid s e v = elim (Bool-cases (t.cuid == cuid)) [
  | inl f ↦ rw (f, ap is_valid (some_inj t s (rw f at e)), v) refl
  | inr f ↦ rw f (or_true _ _ (nay-has_opposition l cuid s (rw f at e) v))
]

-- The seats keep their statuses when somebody votes.
waiting-update :
    (l : List Seat) (cuid : ℕ) (v : Vote)
    → has_waiting (update_info cuid (set_vote v) l) ≡ has_waiting l
unfolding update_info
waiting-update [] cuid v = refl
waiting-update (t ∷ l) cuid v = elim (Bool-cases (t.cuid == cuid)) [
  | inl f ↦ rw f refl
  | inr f ↦ rw (f, waiting-update l cuid v) refl
]

waiting-valid :
    (l : List Seat) (v : Vote) → has_waiting (update_valid (set_vote v) l) ≡ has_waiting l
unfolding update_valid
waiting-valid [] v = refl
waiting-valid (t ∷ l) v =
    elim (is_valid t)
      as (λ b.
        has_waiting ((if b then set_vote v t else t) ∷ update_valid (set_vote v) l)
        ≡ has_waiting (t ∷ l)) [
          | true ↦ rw (waiting-valid l v) refl
          | false ↦ rw (waiting-valid l v) refl
        ]

NoSort-vote :
    (l : List Seat) (cuid : ℕ) (v : Vote)
    → All NoSort l
    → All NoSort (update_info cuid (set_vote v) l)
unfolding update_info
NoSort-vote [] cuid v a = tt
NoSort-vote (t ∷ l) cuid v a = elim (Bool-cases (t.cuid == cuid)) [
  | inl f ↦ rw f a
  | inr f ↦ rw f (a.0, NoSort-vote l cuid v a.1)
]

NoSort-valid : (l : List Seat) (v : Vote) → All NoSort l → All NoSort (update_valid (set_vote v) l)
unfolding update_valid
NoSort-valid [] v a = tt
NoSort-valid (t ∷ l) v a = elim (Bool-cases (is_valid t)) [
  | inl f ↦ rw f (a.0, NoSort-valid l v a.1)
  | inr f ↦ rw f (a.0, NoSort-valid l v a.1)
]

opposed :
    (env : Env) (room : Room) (cuid : ℕ) (s : Seat)
    → room.status ≡ vote
    → get_player_info cuid room.players ≡ some s
    → is_valid s ≡ true
    → step env (vote_for_abort_msg cuid nay) room ≡ some (end_ballot play (put_vote cuid nay room))
unfolding step vote_for_abort check_all_votes
opposed env room cuid s e found v =
    let seated : not (is_seated cuid room.players) ≡ false =
      ap not (get-is_seated room.players cuid s found) in
    let voting : not (is_vote room.status) ≡ false = ap (λ st. not (is_vote st)) e in
    rw (seated, voting, nay-has_opposition room.players cuid s found v) refl

-- A ballot in which nobody sorts cards and a valid player has not brought out any, as the one
-- called between two rounds, ends with the first nay of a valid player in a round that never
-- goes on: whatever comes afterwards but a wish to give up, each event has a result, the room
-- stays in the status of play, nobody may bring out cards, and somebody has to.
pub nay-IsWedged :
    (env : Env) (room : Room) (cuid : ℕ) (s : Seat) (l : List (Env × Event))
    → room.status ≡ vote
    → All NoSort room.players
    → has_waiting room.players ≡ true
    → get_player_info cuid room.players ≡ some s
    → is_valid s ≡ true
    → All (λ (x : Env × Event). is_give_up x.1 ≡ false) l
    → (next : Room) × (run_events ((env, vote_for_abort_msg cuid nay) ∷ l) room ≡ some next)
      × IsWedged next
nay-IsWedged env room cuid s l e quiet waits found v h =
    let first : Room = end_ballot play (put_vote cuid nay room) in
    let wedge : IsWedged first = record {
      playing = refl;
      no_sort = NoSort-valid _ unvoted (NoSort-vote room.players cuid nay quiet);
      waiting = waiting-valid _ unvoted ∙ (waiting-update room.players cuid nay ∙ waits);
    } in
    let (next, en, wn) = runs-IsWedged l first h wedge in
    (next, rw (opposed env room cuid s e found v) en, wn)
