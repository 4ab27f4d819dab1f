-- ===== src/Room/Phase/Rounds.antt =====
-- What is done in a round, and after it, is one step in the life of its room.
use chess_games.Prelude.{
  Bool, Bool-cases, List, Option, [], arith, false, if◌then◌else◌, inl, inr, length, ltb, none, not,
  refl, some, subst, sym, true, ℕ, ◌&&◌, ◌++◌, ◌<◌, ◌==◌, ◌∷◌, ◌≡◌, ◌≤◌,
}
use chess_games.Room.Deal.{
  GameStatus, Room, Seat, is_ready, is_witness, play, prep, prepare, ready, settle,
}
use chess_games.Room.Phase.{
  CanStart, Moves, crash, from_prepare, from_settle, moved, score, score_last, stay,
}
use chess_games.Room.Phase.Ballots.{
  Alike, is_play-eq, is_settle-eq, settle_all_game-Moves, start_round-Moves,
}
use chess_games.Deck.{Card, info}
use chess_games.Score.Players.{PlayerData}
use chess_games.Room.Create.{sort_up}
use chess_games.Room.Seats.{is_prepare}
use chess_games.Room.Game.{Env, start_round, update_info}
use chess_games.Room.Settle.{
  after_round, all_brought, is_play, is_settle, keep_cards, take_points, try_settle_all,
  try_settle_game, with_points,
}
use chess_games.Room.QuickStart.{is_quick_start}
use chess_games.Room.Bring.{
  at_seat, bring_legal, bring_out, bring_out_of, brought, is_prep, is_sort, ready_flag,
  ready_flag_of, same_cards, set_status,
}
use chess_games.Score.Pay.{calc_round}

last_round-Moves :
    (env : Env) (p r : Room)
    → p.status ≡ play
    → Alike p r
    → not (is_settle r.status) ≡ false
    → Moves p (try_settle_all env r)
unfolding try_settle_all
last_round-Moves env p r e a s = elim (Bool-cases (ltb r.round r.attr.rounds)) [
  | inl f ↦
      let less : p.round < p.attr.rounds = ground arith in
      rw (s, f) (moved (score e less (cc (is_settle-eq r.status s))))
  | inr f ↦
      let most : p.attr.rounds ≤ p.round = ground arith in
      rw (s, f) (settle_all_game-Moves env p r (λ q h. score_last e most h) a)
]

scored-Moves :
    (env : Env) (p r : Room) → p.status ≡ play → Alike p r → Moves p (after_round true env r)
unfolding after_round
scored-Moves env p r e a =
    last_round-Moves env p (record r { status = settle; settle_time = env.now }) e a refl

try_settle_game-Moves :
    (env : Env) (room r : Room)
    → env.is_card_mode ≡ true
    → Alike room r
    → r.status ≡ room.status
    → Moves room (try_settle_game env r)
unfolding try_settle_game
try_settle_game-Moves env room r card a same = elim (Bool-cases (not (is_play r.status))) [
  | inl e ↦ rw e (moved (stay (cc)))
  | inr e ↦ elim (Bool-cases (not (all_brought env.online r.players))) [
    | inl f ↦ rw (e, f) (moved (stay (cc)))
    | inr f ↦ rw (e, f) (counted (is_play-eq r.status e) (calc_round _ _ _ _ _))
  ]
]
  where
    counted : r.status ≡ play → (o : Option (List PlayerData)) → Moves room (with_points env r o)
    counted e none = crash
    counted e (some l) =
        let scored : Room = record r {
          players = take_points r.players l;
          settle_data = r.settle_data ++ keep_cards r.players l ∷ [];
        } in
        subst (λ b. Moves room (after_round b env scored)) (sym card)
          (scored-Moves env room scored (cc) a)

bring_legal-Moves :
    (env : Env) (cuid : ℕ) (special : Bool) (cards : List Card) (room : Room) (o : Option Bool)
    → env.is_card_mode ≡ true
    → Moves room (bring_legal env cuid special cards room o)
bring_legal-Moves env cuid special cards room none card = crash
bring_legal-Moves env cuid special cards room (some false) card = moved (stay refl)
bring_legal-Moves env cuid special cards room (some true) card =
    try_settle_game-Moves env room
      (record room { players = update_info cuid (brought special cards) room.players }) card
      (refl, refl) refl

at_seat-Moves :
    (cuid : ℕ) (room : Room) (o : Option Seat) (f : Seat → Option Room)
    → ((s : Seat) → Moves room (f s))
    → Moves room (at_seat cuid room o f)
at_seat-Moves cuid room none f h = moved (stay refl)
at_seat-Moves cuid room (some s) f h = h s

bring_out_of-Moves :
    (env : Env) (cuid : ℕ) (special : Bool) (cards : List Card) (room : Room) (info : Seat)
    → env.is_card_mode ≡ true
    → Moves room (bring_out_of env cuid special cards room info)
unfolding bring_out_of
bring_out_of-Moves env cuid special cards room info card =
    elim (Bool-cases (not (is_play room.status))) [
      | inl e ↦ rw e (moved (stay refl))
      | inr e ↦ elim (Bool-cases (not (is_sort info.status))) [
        | inl f ↦ rw (e, f) (moved (stay refl))
        | inr f ↦ elim (Bool-cases (not (length cards == 13))) [
          | inl g ↦ rw (e, f, g) (moved (stay refl))
          | inr g ↦ elim (Bool-cases (not (same_cards (sort_up cards) info.cards))) [
            | inl h ↦ rw (e, f, g, h) (moved (stay refl))
            | inr h ↦ rw (e, f, g, h) (bring_legal-Moves env cuid special cards room _ card)
          ]
        ]
      ]
    ]

pub bring_out-Moves :
    (env : Env) (cuid : ℕ) (special : Bool) (cards : List Card) (room : Room)
    → env.is_card_mode ≡ true
    → Moves room (bring_out env cuid special cards room)
unfolding bring_out
bring_out-Moves env cuid special cards room card =
    at_seat-Moves cuid room _ _ (λ s. bring_out_of-Moves env cuid special cards room s card)

may_ready : (s : GameStatus) → (not (is_prepare s) && not (is_settle s)) ≡ false → CanStart s
may_ready prepare h = from_prepare
may_ready settle h = from_settle
may_ready _ h = cc

ready_flag_of-Moves :
    (env : Env) (cuid : ℕ) (flag : Bool) (room : Room) (info : Seat)
    → Moves room (ready_flag_of env cuid flag room info)
unfolding ready_flag_of
ready_flag_of-Moves env cuid flag room info = elim (Bool-cases (is_witness info.status)) [
  | inl e ↦ rw e (moved (stay refl))
  | inr e ↦ elim (Bool-cases (is_quick_start room.status)) [
    | inl f ↦ rw (e, f) (moved (stay refl))
    | inr f ↦ elim (Bool-cases (not (is_prepare room.status) && not (is_settle room.status))) [
      | inl g ↦ rw (e, f, g) (moved (stay refl))
      | inr g ↦ rw (e, f, g) (flagged flag (may_ready room.status g))
    ]
  ]
]
  where
    flagged :
        (flag : Bool)
        → CanStart room.status
        → Moves room (
            if (if flag then is_ready info.status else is_prep info.status)
            then some room
            else if flag
            then start_round env (record room {
              players = update_info cuid (set_status (if flag then ready else prep)) room.players;
            })
            else some (record room {
              players = update_info cuid (set_status (if flag then ready else prep)) room.players;
            }))
    flagged true c = elim (Bool-cases (is_ready info.status)) [
      | inl h ↦ rw h (moved (stay refl))
      | inr h ↦ rw h (start_round-Moves env room _ c (refl, refl) (stay refl))
    ]
    flagged false c = elim (Bool-cases (is_prep info.status)) [
      | inl h ↦ rw h (moved (stay refl))
      | inr h ↦ rw h (moved (stay refl))
    ]

pub ready_flag-Moves :
    (env : Env) (cuid : ℕ) (flag : Bool) (room : Room) → Moves room (ready_flag env cuid flag room)
unfolding ready_flag
ready_flag-Moves env cuid flag room =
    at_seat-Moves cuid room _ _ (ready_flag_of-Moves env cuid flag room)
