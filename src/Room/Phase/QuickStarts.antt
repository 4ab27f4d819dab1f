-- ===== src/Room/Phase/QuickStarts.antt =====
-- A start before all seats are taken is one step in the life of its room.
use chess_games.Prelude.{
  Bool-cases, ap, false, inl, inr, ltb, not, refl, subst, sym, ℕ, ◌==◌, ◌≡◌, ◌⊎◌,
}
use chess_games.Room.Deal.{
  GameStatus, Room, Vote, aye, closed, play, prepare, quick_start, sel_banker, settle, settle_all,
  unvoted, valid_players, vote,
}
use chess_games.Room.Phase.{
  CanStart, Move, Moves, ask_start, from_prepare, from_quick_start, moved, phase, refuse_start,
  stay,
}
use chess_games.Room.Phase.Ballots.{Alike, is_quick_start-eq, start_round-Moves}
use chess_games.Room.Seats.{is_seated}
use chess_games.Room.Game.{Env, update_valid}
use chess_games.Room.Votes.{aye_size, has_opposition, is_unvoted, put_vote, set_vote}
use chess_games.Room.QuickStart.{
  all_valid_ready, ask_quick_start, check_all_votes_quick_start, is_quick_start, quick_start_in,
  vote_for_quick_start,
}

check_quick_start-Moves :
    (env : Env) (p r : Room)
    → (p.status ≡ prepare) ⊎ (p.status ≡ quick_start)
    → Alike p r
    → not (is_quick_start r.status) ≡ false
    → Moves p (check_all_votes_quick_start env r)
unfolding check_all_votes_quick_start
check_quick_start-Moves env p r c a v = elim (Bool-cases (has_opposition r.players)) [
  | inl e ↦ rw (v, e) (moved (refused c))
  | inr e ↦ elim (Bool-cases (aye_size r.players == valid_players r.players)) [
    | inl f ↦
        rw (v, e, f)
          (start_round-Moves env p
            (record r { players = update_valid (set_vote unvoted) r.players; quick_start_time = 0 })
            (can c) a (same c))
    | inr f ↦ rw (v, e, f) (moved (same c))
  ]
]
  where
    refused :
        (p.status ≡ prepare) ⊎ (p.status ≡ quick_start)
        → Move (phase p) (record { status = prepare; round = r.round; rounds = r.attr.rounds })
    refused (inl h) = stay (cc)
    refused (inr h) = refuse_start h (cc)

    can : (p.status ≡ prepare) ⊎ (p.status ≡ quick_start) → CanStart p.status
    can (inl h) = subst CanStart (sym h) from_prepare
    can (inr h) = subst CanStart (sym h) from_quick_start

    same : (p.status ≡ prepare) ⊎ (p.status ≡ quick_start) → Move (phase p) (phase r)
    same (inl h) = ask_start h (cc (is_quick_start-eq r.status v))
    same (inr h) = stay (cc (is_quick_start-eq r.status v))

quick_start_in-Moves :
    (env : Env) (cuid : ℕ) (st : GameStatus) (room : Room)
    → room.status ≡ st
    → Moves room (quick_start_in env cuid st room)
unfolding quick_start_in
quick_start_in-Moves env cuid prepare room e = elim (Bool-cases (not (cuid == room.owner_cuid))) [
  | inl f ↦ rw f (moved (stay refl))
  | inr f ↦ elim (Bool-cases (not (all_valid_ready room.players))) [
    | inl g ↦ rw (f, g) (moved (stay refl))
    | inr g ↦ elim (Bool-cases (ltb (valid_players room.players) 2)) [
      | inl h ↦ rw (f, g, h) (moved (stay refl))
      | inr h ↦
          rw (f, g, h)
            (check_quick_start-Moves env room
              (put_vote cuid aye (record room { quick_start_time = env.now; status = quick_start }))
              (inl e) (refl, refl) refl)
    ]
  ]
]
quick_start_in-Moves env cuid quick_start room e =
    check_quick_start-Moves env room (put_vote cuid aye room) (inr e) (refl, refl)
      (ap (λ s. not (is_quick_start s)) e)
quick_start_in-Moves env cuid sel_banker room e = moved (stay refl)
quick_start_in-Moves env cuid GameStatus.sel_multiple room e = moved (stay refl)
quick_start_in-Moves env cuid play room e = moved (stay refl)
quick_start_in-Moves env cuid vote room e = moved (stay refl)
quick_start_in-Moves env cuid settle room e = moved (stay refl)
quick_start_in-Moves env cuid settle_all room e = moved (stay refl)
quick_start_in-Moves env cuid closed room e = moved (stay refl)

pub ask_quick_start-Moves :
    (env : Env) (cuid : ℕ) (room : Room) → Moves room (ask_quick_start env cuid room)
unfolding ask_quick_start
ask_quick_start-Moves env cuid room = elim (Bool-cases (not (is_seated cuid room.players))) [
  | inl e ↦ rw e (moved (stay refl))
  | inr e ↦ rw e (quick_start_in-Moves env cuid room.status room refl)
]

pub vote_for_quick_start-Moves :
    (env : Env) (cuid : ℕ) (v : Vote) (room : Room)
    → Moves room (vote_for_quick_start env cuid v room)
unfolding vote_for_quick_start
vote_for_quick_start-Moves env cuid v room = elim (Bool-cases (not (is_seated cuid room.players))) [
  | inl e ↦ rw e (moved (stay refl))
  | inr e ↦ elim (Bool-cases (not (is_quick_start room.status))) [
    | inl f ↦ rw (e, f) (moved (stay refl))
    | inr f ↦ elim (Bool-cases (is_unvoted v)) [
      | inl g ↦ rw (e, f, g) (moved (stay refl))
      | inr g ↦
          rw (e, f, g)
            (check_quick_start-Moves env room (put_vote cuid v room)
              (inr (is_quick_start-eq room.status f)) (refl, refl) f)
    ]
  ]
]
