-- ===== src/Room/Scenarios.antt =====
-- Games in rooms, step by step.
use chess_games.Deck.Three.{brand_info3}
use chess_games.Deck.Five.{brand_info5}
use chess_games.Deck.Sort.{sort}
use chess_games.Deck.Loops.{flush_loop}
use chess_games.Room.Taken.{IsTaken, bring_out-IsTaken}
use chess_games.Room.Balance.{IsSettled, try_settle_game-balance}
use chess_games.Room.Tests.{accepted, eight, keep, online, opened, prices, seat, two_players}
use chess_games.Room.Wedge.{IsWedged}
use chess_games.Room.Opposed.{nay-IsWedged, run_events}
use chess_games.Room.Hands.{HasHand}
use chess_games.Room.Stuck.{run_timer, timer-stuck}
use chess_games.Room.Deadline.{timer-starts_round}
use chess_games.Room.Phase.{Move, phase}
use chess_games.Room.Phase.Timers.{step-Move}
use chess_games.Room.Phase.Invariant.{IsPhase, Reach-IsPhase, event, here}
use chess_games.Prelude.{
  All, List, [], arith, false, if◌then◌else◌, inl, ltb, refl, some, true, ℕ, ◌∷◌, ◌≡◌, ◌⊎◌,
}
use chess_games.Prelude.Int.{pos}
use chess_games.Room.Deal.{
  GameStatus, PlayerStatus, Room, Seat, compare, nay, play, settle, settle_all, vote,
}
use chess_games.Room.Seats.{is_seated}
use chess_games.Room.Game.{Env, get_player_info, update_info}
use chess_games.Room.Votes.{check_all_votes, end_ballot, has_opposition, put_vote, vote_for_abort}
use chess_games.Room.Step.{bring_out_msg, step, timer, vote_for_abort_msg}
use chess_games.Deck.{Card, cmp_brand_info, less_card, rank, suit}
use chess_games.Room.Create.{sort_up}
use chess_games.Room.Settle.{all_brought, try_settle_game}
use chess_games.Room.Bring.{bring_out, bring_out_of, brought, legal_rows, same_cards}
use chess_games.Deck.Ghost.{brand_info, non_ghosts}

abbrev pub process : ℕ → Env
process now = record {
  online = online;
  shuffle = keep;
  random = λ n. 1;
  now = now;
  is_card_mode = true;
  shoot_add_point = pos 3;
}

abbrev in_status : GameStatus → Room
in_status st = record opened { status = st }

abbrev after_nay : Room
after_nay = end_ballot play (put_vote 7 nay (in_status vote))

nay_step : step (process 100) (vote_for_abort_msg 7 nay) (in_status vote) ≡ some after_nay
unfolding step vote_for_abort is_seated check_all_votes has_opposition update_info
nay_step = refl

step-Move_example : Move (phase (in_status vote)) (phase after_nay)
step-Move_example =
    step-Move (process 100) (vote_for_abort_msg 7 nay) (in_status vote) after_nay refl nay_step

Reach-IsPhase_example : IsPhase (phase after_nay)
Reach-IsPhase_example =
    Reach-IsPhase
      (record {
        some_rounds = omega arith;
        bounded = omega arith;
        fresh = λ h. cc;
        fresh_quick = λ h. cc;
        unfinished = λ h. cc;
      })
      (event here (process 100) (vote_for_abort_msg 7 nay) refl nay_step)

timer-starts_round_example :
    (next : Room) × (step (process 300) timer (in_status settle) ≡ some next)
    × (next.status ≡ play)
    × (next.round ≡ 1)
    × All HasHand next.players
timer-starts_round_example =
    timer-starts_round (process 300) prices (in_status settle) (λ y l. refl) (λ l. refl) accepted
      refl refl (refl, (refl, tt)) refl (omega arith)

timer-stuck_example :
    (next : Room) × (run_timer (process 300 ∷ process 600 ∷ []) (in_status GameStatus.sel_multiple)
      ≡ some next)
    × (next.status ≡ GameStatus.sel_multiple)
timer-stuck_example =
    timer-stuck (process 300) (process 600 ∷ []) (in_status GameStatus.sel_multiple) refl
      (omega arith) (refl, (refl, tt)) (omega arith, tt)

nay-IsWedged_example :
    (next : Room) × (run_events
        ((process 100, vote_for_abort_msg 7 nay) ∷ (process 110, bring_out_msg 8 false eight) ∷ [])
        (in_status vote)
      ≡ some next)
    × IsWedged next
unfolding get_player_info
nay-IsWedged_example =
    nay-IsWedged (process 100) (in_status vote) 7 (seat 7)
      ((process 110, bring_out_msg 8 false eight) ∷ []) refl (refl, (refl, tt)) refl refl refl
      (refl, tt)

abbrev dealt : ℕ → PlayerStatus → List Card → Seat
dealt cuid st cards = record (seat cuid) { status = st; cards = cards }

-- Three rows that ascend, and the cards of the seat.
abbrev pub hand : List Card
hand = 2 ∷ 18 ∷ 34 ∷ 1 ∷ 14 ∷ 30 ∷ 6 ∷ 7 ∷ 5 ∷ 18 ∷ 4 ∷ 17 ∷ 31 ∷ []

abbrev pub in_play : Room
in_play = record opened {
  status = play;
  players =
      dealt 7 PlayerStatus.sort (sort_up hand) ∷ dealt 8 PlayerStatus.sort (sort_up hand) ∷ [];
}

abbrev one_brought : Room
one_brought = record in_play {
  players = dealt 7 compare hand ∷ dealt 8 PlayerStatus.sort (sort_up hand) ∷ [];
}

bring_step : step (process 100) (bring_out_msg 7 false hand) in_play ≡ some one_brought
unfolding step bring_out bring_out_of get_player_info same_cards sort_up legal_rows try_settle_game
    update_info all_brought brand_info cmp_brand_info brand_info3 rank sort less_card brand_info5
    suit flush_loop
bring_step = refl

bring_out-IsTaken_example :
    (one_brought ≡ in_play)
    ⊎ (IsTaken false hand in_play (dealt 7 PlayerStatus.sort (sort_up hand))
        × (try_settle_game
              (process 100)
              (record in_play { players = update_info 7 (brought false hand) in_play.players })
            ≡ some one_brought))
unfolding get_player_info
bring_out-IsTaken_example =
    bring_out-IsTaken (process 100) 7 false hand in_play one_brought
      (dealt 7 PlayerStatus.sort (sort_up hand)) refl bring_step

abbrev round_over : Room
round_over = record in_play {
  round = 1;
  players = dealt 7 compare hand ∷ dealt 8 compare hand ∷ [];
}

try_settle_game-balance_example :
    IsSettled
      (process 100)
      round_over
      (if ltb round_over.round round_over.attr.rounds then settle else settle_all)
      (try_settle_game (process 100) round_over)
unfolding all_brought non_ghosts
try_settle_game-balance_example =
    try_settle_game-balance (process 100) round_over refl refl refl (omega arith)
      (inl (omega arith)) tt

abbrev winners_pay : Room
winners_pay = record opened { attr = record two_players { payor = 2 }; status = settle }
