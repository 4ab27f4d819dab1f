-- ===== src/Room/Phase/Ballots.antt =====
-- Ballots and the start of a round each make one step in the life of their room.
use chess_games.Prelude.{
  Bool, Bool-cases, List, Option, arith, false, inl, inr, length, ltb, none, not, refl, some, subst,
  sym, ℕ, ◌*◌, ◌==◌, ◌≡◌,
}
use chess_games.Room.Deal.{
  Bill, GameStatus, Room, Seat, Vote, aye, closed, is_banker_game, is_sel_multiple, may_start, play,
  prepare, quick_start, sel_banker, settle, settle_all, start_play, try_start_round, valid_players,
  vote,
}
use chess_games.Room.Phase.{
  CanStart, CanVote, Move, Moves, Phase, agree, crash, give_up_room, in_play, in_prepare, in_settle,
  in_vote, moved, oppose, phase, sponsor, start, stay,
}
use chess_games.Deck.{Card}
use chess_games.Room.Game.{Env, abort_game, remove_cuid, start_round}
use chess_games.Room.Settle.{is_play, is_settle, settle_all_game, settled_all}
use chess_games.Room.Votes.{
  aye_size, bill_owner, check_all_votes, end_ballot, give_up, give_up_in, has_opposition,
  is_unvoted, is_vote, put_vote, settle_billed, start_ballot, vote_for_abort,
}
use chess_games.Room.Seats.{is_seated}
use chess_games.Room.QuickStart.{is_quick_start}
use chess_games.Room.Chips.{is_sel_banker}
use chess_games.Room.Renew.{is_settle_all}

-- `r` is `p` but for its status and what a phase leaves out.
abbrev pub Alike : Room → Room → Type 0
Alike p r = (r.round ≡ p.round) × (r.attr.rounds ≡ p.attr.rounds)

start_play-Moves :
    (online : ℕ → Bool) (now : ℕ) (p r : Room) (o : Option (List Seat × List Card))
    → CanStart p.status
    → Alike p r
    → Moves p (start_play online now r o)
unfolding start_play
start_play-Moves online now p r none c a = crash
start_play-Moves online now p r (some (seats, rest)) c a =
    elim (Bool-cases (is_banker_game r.attr)) [
      | inr e ↦ rw e (moved (start play (inl refl) c (cc)))
      | inl e ↦ elim (Bool-cases (ltb (length rest) (valid_players seats * 5))) [
        | inl f ↦ rw (e, f) crash
        | inr f ↦ rw (e, f) (moved (start sel_banker (inr refl) c (cc)))
      ]
    ]

pub start_round-Moves :
    (env : Env) (p r : Room)
    → CanStart p.status
    → Alike p r
    → Move (phase p) (phase r)
    → Moves p (start_round env r)
unfolding try_start_round
start_round-Moves env p r c a m = elim (Bool-cases (may_start env.online r.status r.players)) [
  | inr e ↦ rw e (moved m)
  | inl e ↦ rw e (start_play-Moves env.online env.now p r _ c a)
]

settled_all-Moves :
    (env : Env) (p r : Room) (o : Option (List Bill))
    → ((q : Phase) → q ≡ record (phase p) { status = settle_all } → Move (phase p) q)
    → Alike p r
    → Moves p (settled_all env r o)
settled_all-Moves env p r none m a = crash
settled_all-Moves env p r (some l) m a = moved (m _ (cc))

pub settle_all_game-Moves :
    (env : Env) (p r : Room)
    → ((q : Phase) → q ≡ record (phase p) { status = settle_all } → Move (phase p) q)
    → Alike p r
    → Moves p (settle_all_game env r)
unfolding settle_all_game
settle_all_game-Moves env p r m a = elim (Bool-cases (r.attr.payor == 2)) [
  | inl e ↦ rw e (settled_all-Moves env p r _ m a)
  | inr e ↦ rw e (settled_all-Moves env p r (some r.bills) m a)
]

check_all_votes-Moves :
    (env : Env) (p r : Room)
    → CanVote p.status p.round
    → Alike p r
    → r.status ≡ vote
    → Moves p (check_all_votes env r)
unfolding check_all_votes
check_all_votes-Moves env p r c a v = elim (Bool-cases (has_opposition r.players)) [
  | inl e ↦ rw (v, e) (moved (oppose c (cc)))
  | inr e ↦ elim (Bool-cases (aye_size r.players == valid_players r.players)) [
    | inl f ↦ rw (v, e, f) (billed (bill_owner env r))
    | inr f ↦ rw (v, e, f) (moved (sponsor c (cc)))
  ]
]
  where
    billed : (o : Option (List Bill)) → Moves p (settle_billed env r o)
    billed none = crash
    billed (some l) =
        settle_all_game-Moves env p (record (end_ballot vote r) { bills = l }) (λ q h. agree c h) a

ballot :
    (env : Env) (cuid : ℕ) (room : Room)
    → CanVote room.status room.round
    → Moves room (check_all_votes env (put_vote cuid aye (start_ballot env cuid room)))
ballot env cuid room c = check_all_votes-Moves env room _ c (refl, refl) refl

pub remove_cuid-Moves : (cuid : ℕ) (room : Room) → Move (phase room) (phase (remove_cuid cuid room))
unfolding remove_cuid
remove_cuid-Moves cuid room = elim (Bool-cases (is_seated cuid room.players)) [
  | inl e ↦ rw e (stay refl)
  | inr e ↦ rw e (stay refl)
]

give_up_in-Moves :
    (env : Env) (cuid : ℕ) (st : GameStatus) (room : Room)
    → room.status ≡ st
    → Moves room (give_up_in env cuid st room)
unfolding give_up_in abort_game
give_up_in-Moves env cuid prepare room e = elim (Bool-cases (room.round == 0)) [
  | inr f ↦
      rw f (
        ballot env cuid room
          (subst (λ s. CanVote s room.round) (sym e) (in_prepare (ground arith))))
  | inl f ↦ elim (Bool-cases (cuid == room.owner_cuid)) [
    | inl g ↦ rw (f, g) (moved (give_up_room (inl e) refl))
    | inr g ↦ rw (f, g) (moved (remove_cuid-Moves cuid room))
  ]
]
give_up_in-Moves env cuid play room e =
    ballot env cuid room (subst (λ s. CanVote s room.round) (sym e) in_play)
give_up_in-Moves env cuid settle room e =
    ballot env cuid room (subst (λ s. CanVote s room.round) (sym e) in_settle)
give_up_in-Moves env cuid vote room e =
    check_all_votes-Moves env room (put_vote cuid aye room)
      (subst (λ s. CanVote s room.round) (sym e) in_vote) (refl, refl) e
give_up_in-Moves env cuid settle_all room e = moved (remove_cuid-Moves cuid room)
give_up_in-Moves env cuid closed room e = moved (remove_cuid-Moves cuid room)
give_up_in-Moves env cuid quick_start room e = moved (stay refl)
give_up_in-Moves env cuid sel_banker room e = moved (stay refl)
give_up_in-Moves env cuid GameStatus.sel_multiple room e = moved (stay refl)

pub give_up-Moves : (env : Env) (cuid : ℕ) (room : Room) → Moves room (give_up env cuid room)
unfolding give_up
give_up-Moves env cuid room = elim (Bool-cases (is_seated cuid room.players)) [
  | inl e ↦ rw e (give_up_in-Moves env cuid room.status room refl)
  | inr e ↦ rw e (moved (stay refl))
]

is_vote-eq : (s : GameStatus) → not (is_vote s) ≡ false → s ≡ vote
is_vote-eq vote h = refl
is_vote-eq _ h = cc

pub is_quick_start-eq : (s : GameStatus) → not (is_quick_start s) ≡ false → s ≡ quick_start
is_quick_start-eq quick_start h = refl
is_quick_start-eq _ h = cc

pub is_play-eq : (s : GameStatus) → not (is_play s) ≡ false → s ≡ play
is_play-eq play h = refl
is_play-eq _ h = cc

pub is_settle-eq : (s : GameStatus) → not (is_settle s) ≡ false → s ≡ settle
is_settle-eq settle h = refl
is_settle-eq _ h = cc

pub is_settle_all-eq : (s : GameStatus) → not (is_settle_all s) ≡ false → s ≡ settle_all
is_settle_all-eq settle_all h = refl
is_settle_all-eq _ h = cc

pub is_sel_banker-eq : (s : GameStatus) → not (is_sel_banker s) ≡ false → s ≡ sel_banker
is_sel_banker-eq sel_banker h = refl
is_sel_banker-eq _ h = cc

pub is_sel_multiple-eq :
    (s : GameStatus) → not (is_sel_multiple s) ≡ false → s ≡ GameStatus.sel_multiple
is_sel_multiple-eq GameStatus.sel_multiple h = refl
is_sel_multiple-eq _ h = cc

pub vote_for_abort-Moves :
    (env : Env) (cuid : ℕ) (v : Vote) (room : Room) → Moves room (vote_for_abort env cuid v room)
unfolding vote_for_abort
vote_for_abort-Moves env cuid v room = elim (Bool-cases (not (is_seated cuid room.players))) [
  | inl e ↦ rw e (moved (stay refl))
  | inr e ↦ elim (Bool-cases (not (is_vote room.status))) [
    | inl f ↦ rw (e, f) (moved (stay refl))
    | inr f ↦ elim (Bool-cases (is_unvoted v)) [
      | inl g ↦ rw (e, f, g) (moved (stay refl))
      | inr g ↦
          let s : room.status ≡ vote = is_vote-eq room.status f in
          rw (e, f, g)
            (check_all_votes-Moves env room (put_vote cuid v room)
              (subst (λ t. CanVote t room.round) (sym s) in_vote) (refl, refl) s)
    ]
  ]
]
