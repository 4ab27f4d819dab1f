-- ===== src/Room/Settle.antt =====
-- The end of a round and of a game: `trySettleGame`, `trySettleAll` and `settleAll` of `Water13`.
-- `Water13_Card` has the same `settleAll` again.
use chess_games.Prelude.{
  Bool, List, Option, [], count, false, if◌then◌else◌, length, ltb, map, none, not, some, take,
  true, ℕ, ◌&&◌, ◌*◌, ◌++◌, ◌+◌, ◌/◌, ◌==◌, ◌||◌, ◌∷◌,
}
use chess_games.Room.Deal.{
  Bill, GameStatus, Room, Seat, is_compare, is_valid, play, prep, prepare, settle, settle_all,
}
use chess_games.Prelude.Int.{ltb_ℤ, pos, ℤ, ◌+ℤ◌}
use chess_games.Score.Players.{Losers, Player, PlayerData}
use chess_games.Room.Game.{Env}
use chess_games.Score.Pay.{calc_round}

abbrev pub is_play : GameStatus → Bool
is_play play = true
is_play _ = false

abbrev pub is_settle : GameStatus → Bool
is_settle settle = true
is_settle _ = false

-- `FinalCount`.
pub record FinalCount : Type 0 where
  pub cuid : ℕ
  pub win : ℕ
  pub daqiang : ℕ
  pub quanleida : ℕ
  pub rank : ℤ

abbrev pub no_count : ℕ → FinalCount
no_count cuid = record { cuid = cuid; win = 0; daqiang = 0; quanleida = 0; rank = pos 0 }

-- The sum of the shots is kept in a `bool`.
unfoldable pub any_shot : Losers → Bool
any_shot [] = false
any_shot ((k, v) ∷ m) = not (v.shot == 0) || any_shot m

unfoldable pub count_player : PlayerData → FinalCount → FinalCount
unfolding any_shot
count_player pd count = record {
  cuid = pd.cuid;
  win = count.win + (if ltb_ℤ (pos 0) pd.prize then 1 else 0);
  daqiang = count.daqiang + (if any_shot pd.losers then 1 else 0);
  quanleida = count.quanleida + (if pd.quan_lei_da then 1 else 0);
  rank = count.rank +ℤ pd.prize;
}

-- One round; there is a count for each seat, and each round has as many entries.
unfoldable pub count_round : List PlayerData → List FinalCount → List FinalCount
unfolding count_player
count_round [] counts = counts
count_round (pd ∷ l) [] = []
count_round (pd ∷ l) (count ∷ counts) = count_player pd count ∷ count_round l counts

unfoldable pub count_rounds : List (List PlayerData) → List FinalCount → List FinalCount
unfolding count_round
count_rounds [] counts = counts
count_rounds (r ∷ l) counts = count_rounds l (count_round r counts)

-- `allFinalCount`.
unfoldable pub all_final_count : Room → List FinalCount
unfolding count_rounds
all_final_count room = elim room.settle_data [
  | [] ↦ map (λ (s : Seat). no_count s.cuid) room.players
  | r ∷ l ↦ count_rounds (r ∷ l) (map (λ (s : Seat). no_count 0) room.players)
]

-- `std::sort` with `finalCountGreater`. The order of equal ranks is open in the source, and
-- nothing that follows tells one from another but by rank.
unfoldable pub insert_count : FinalCount → List FinalCount → List FinalCount
insert_count c [] = c ∷ []
insert_count c (d ∷ l) = if ltb_ℤ c.rank d.rank then d ∷ insert_count c l else c ∷ d ∷ l

unfoldable pub sort_counts : List FinalCount → List FinalCount
unfolding insert_count
sort_counts [] = []
sort_counts (c ∷ l) = insert_count c (sort_counts l)

-- The loop for `lastBigWinnerIndex`, behind a count of rank `r`.
unfoldable pub big_winners_behind : ℤ → List FinalCount → ℕ
big_winners_behind r [] = 0
big_winners_behind r (c ∷ l) =
    let rest = big_winners_behind c.rank l in if ltb_ℤ c.rank r then 0 else rest + 1

-- The counts from 0 to `lastBigWinnerIndex`; with no seat there is none.
unfoldable pub big_winners : List FinalCount → List FinalCount
unfolding big_winners_behind
big_winners [] = []
big_winners (c ∷ l) = take (big_winners_behind c.rank l + 1) (c ∷ l)

-- The bills of the winners, the newest first. A winner that is not connected is a null pointer
-- that is read for the log.
unfoldable pub winner_bills : (ℕ → Bool) → ℕ → List FinalCount → List Bill → Option (List Bill)
winner_bills online price [] bills = some bills
winner_bills online price (c ∷ l) bills =
    let rest = winner_bills online price l (record { cuid = c.cuid; price = price } ∷ bills) in
    if online c.cuid then rest else none

abbrev pub settled_all : Env → Room → Option (List Bill) → Option Room
settled_all env room none = none
settled_all env room (some l) =
    some (record room { status = settle_all; settle_all_time = env.now; bills = l })

unfoldable pub settle_all_game : Env → Room → Option Room
unfolding winner_bills big_winners sort_counts all_final_count
settle_all_game env room =
    let winners = big_winners (sort_counts (all_final_count room)) in
    let price = room.player_price * room.attr.player_size / length winners in
    if room.attr.payor == 2
    then settled_all env room (winner_bills env.online price winners room.bills)
    else settled_all env room (some room.bills)

unfoldable pub try_settle_all : Env → Room → Option Room
try_settle_all env room =
    if not (is_settle room.status)
    then some room
    else if ltb room.round room.attr.rounds
    then some room
    else settle_all_game env room

-- The test at the head of `trySettleGame`.
unfoldable pub all_brought : (ℕ → Bool) → List Seat → Bool
all_brought online [] = true
all_brought online (s ∷ l) =
    let rest = all_brought online l in
    if is_valid s && (not (is_compare s.status) || not (online s.cuid)) then false else rest

abbrev pub player_of : Seat → Player
player_of s = record { cuid = s.cuid; cards_spec_brand = s.cards_spec_brand; cards = s.cards }

-- The cards of `curRound->players` are put back into the players' order.
unfoldable pub keep_cards : List Seat → List PlayerData → List PlayerData
keep_cards [] l = l
keep_cards (s ∷ seats) [] = []
keep_cards (s ∷ seats) (d ∷ l) = record d { cards = s.cards } ∷ keep_cards seats l

-- The points of the round, and the seats that played are to prepare again.
unfoldable pub take_points : List Seat → List PlayerData → List Seat
take_points [] l = []
take_points (s ∷ seats) [] = s ∷ seats
take_points (s ∷ seats) (d ∷ l) =
    record s { rank = s.rank +ℤ d.prize; status = if is_valid s then prep else s.status }
    ∷ take_points seats l

abbrev pub set_prep : Seat → Seat
set_prep s = record s { status = prep }

-- What follows the points, in a room of cards and in a room of gold, which has no rounds.
unfoldable pub after_round : Bool → Env → Room → Option Room
after_round true env room =
    try_settle_all env (record room { status = settle; settle_time = env.now })
after_round false env room =
    some (record room { players = map set_prep room.players; status = prepare; round = 0 })

abbrev pub with_points : Env → Room → Option (List PlayerData) → Option Room
with_points env room none = none
with_points env room (some l) = after_round env.is_card_mode env (record room {
  players = take_points room.players l;
  settle_data = room.settle_data ++ keep_cards room.players l ∷ [];
})

unfoldable pub try_settle_game : Env → Room → Option Room
unfolding take_points keep_cards all_brought
try_settle_game env room =
    if not (is_play room.status)
    then some room
    else if not (all_brought env.online room.players)
    then some room
    else with_points env room (
        calc_round (map player_of room.players) room.attr.da_qiang room.attr.ma_pai
          env.shoot_add_point true)
