-- ===== src/Room/Tests.antt =====
-- Rooms that are opened and dealt.
use chess_games.Prelude.{
  All, Bool, List, [], count, false, length, refl, some, true, ℕ, ◌*◌, ◌∷◌, ◌≡◌, ◌≤◌,
}
use chess_games.Room.Create.{Config, Request, check_request, make_deck}
use chess_games.Room.Deal.{
  GameStatus, PlayerStatus, Room, Seat, all_ready, may_start, try_start_round, unvoted,
}
use chess_games.Room.Enough.{make_deck-enough}
use chess_games.Room.Hands.{HasHand, in_hands, try_start_round-hands}
use chess_games.Deck.{Card}
use chess_games.Room.Seats.{Client, RoomInfo}
use chess_games.Prelude.Int.{pos}

abbrev pub two_players : Request
two_players = record {
  play_type = 0;
  player_size = 2;
  rounds = 10;
  payor = 0;
  da_qiang = 1;
  ma_pai = 5;
  with_ghost = true;
  suits = 3 ∷ [];
}

abbrev pub prices : Config
prices = record { price_per_player = (10, 3) ∷ []; ma_pai_pattern = 5 ∷ 9 ∷ [] }

pub accepted : check_request prices two_players ≡ 0
unfolding check_request
accepted = refl

make_deck-enough_example :
    two_players.player_size * 13
    ≤ length (make_deck two_players.with_ghost two_players.player_size two_players.suits)
make_deck-enough_example = make_deck-enough prices two_players accepted

abbrev pub seat : ℕ → Seat
seat cuid = record {
  cuid = cuid;
  status = PlayerStatus.ready;
  vote = unvoted;
  rank = pos 0;
  cards_spec_brand = false;
  chip_in = pos 0;
  multiple = pos 0;
  renew_reply = false;
  cards = 0 ∷ 0 ∷ 0 ∷ 0 ∷ 0 ∷ 0 ∷ 0 ∷ 0 ∷ 0 ∷ 0 ∷ 0 ∷ 0 ∷ 0 ∷ [];
}

abbrev pub opened : Room
opened = record {
  attr = two_players;
  status = GameStatus.prepare;
  round = 0;
  players = seat 7 ∷ seat 8 ∷ [];
  remain_brands = [];
  expired = false;
  player_price = 3;
  banker_multiple = 5;
  owner_cuid = 8;
  start_vote_time = 0;
  vote_sponsor_cuid = 0;
  quick_start_time = 0;
  sel_banker_time = 0;
  sel_multiple_time = 0;
  settle_time = 0;
  settle_all_time = 0;
  banker_cuid = 0;
  new_owner_id = 0;
  settle_data = [];
  bills = [];
  left = [];
}

abbrev pub online : ℕ → Bool
online cuid = true

abbrev pub keep : List Card → List Card
keep l = l

try_start_round-hands_example :
    (next : Room) × (try_start_round online keep 100 opened ≡ some next)
    × (next.status ≡ GameStatus.play)
    × (next.round ≡ 1)
    × All HasHand next.players
    × (in_hands 40 next.players ≤ count 40 (make_deck true 2 (3 ∷ [])))
unfolding may_start all_ready
try_start_round-hands_example =
    try_start_round-hands online keep 100 prices opened 40 (λ y l. refl) (λ l. refl) accepted refl
      refl (refl, (refl, tt)) refl

abbrev pub eight : List Card
eight = 5 ∷ 9 ∷ 12 ∷ 18 ∷ 30 ∷ 33 ∷ 41 ∷ 52 ∷ []

abbrev fixed_room : RoomInfo
fixed_room = record { id = 5; is_card_mode = true; half_enter = false }

abbrev half_full : Room
half_full = record opened { players = seat 8 ∷ seat 0 ∷ [] }

abbrev stranger : Client
stranger = record { cuid = 7; roomid = 0; money = pos 100 }

abbrev member : Client
member = record { cuid = 7; roomid = 5; money = pos 100 }
