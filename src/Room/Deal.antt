-- ===== src/Room/Deal.antt =====
-- The start of a round: `Water13::tryStartRound`. The shuffle and the test for a client that is
-- connected are arguments. The messages and the configured deck for tests are left out.
use chess_games.Prelude.{
  Bool, List, Option, [], drop, false, if◌then◌else◌, length, ltb, none, not, set, some, take, true,
  ℕ, ◌&&◌, ◌*◌, ◌++◌, ◌+◌, ◌==◌, ◌||◌, ◌∷◌,
}
use chess_games.Prelude.Int.{ltb_ℤ, pos, ℤ}
use chess_games.Deck.{Card}
use chess_games.Score.Players.{PlayerData}
use chess_games.Room.Create.{Request, make_deck, sort_up}

-- `S_G13_PlayersInRoom`.
pub data PlayerStatus : Type 0 where
  empty prep ready sort compare done witness banker sel_multiple : PlayerStatus

pub data GameStatus : Type 0 where
  prepare quick_start sel_banker sel_multiple play vote settle settle_all closed : GameStatus

-- The values of a vote, those of `G13_VoteOfAbort` and of `G13_VoteOfStart`.
pub data Vote : Type 0 where
  unvoted aye nay : Vote

-- A `PlayerInfo` without the name and the like.
pub record Seat : Type 0 where
  pub cuid : ℕ
  pub status : PlayerStatus
  pub vote : Vote
  pub rank : ℤ
  pub cards_spec_brand : Bool
  pub cards : List Card
  pub chip_in : ℤ
  pub multiple : ℤ
  pub renew_reply : Bool

-- A call of `addMoney(-price)` on a client.
pub record Bill : Type 0 where
  pub cuid : ℕ
  pub price : ℕ

-- A room, whose id is 0 once it has expired. The last two fields are what it has done to its
-- clients, the newest first: the bills, and the clients whose `afterLeaveRoom` was called.
pub record Room : Type 0 where
  pub attr : Request
  pub expired : Bool
  pub player_price : ℕ
  pub banker_multiple : ℕ
  pub owner_cuid : ℕ
  pub status : GameStatus
  pub round : ℕ
  pub players : List Seat
  pub remain_brands : List Card
  pub start_vote_time : ℕ
  pub vote_sponsor_cuid : ℕ
  pub quick_start_time : ℕ
  pub sel_banker_time : ℕ
  pub sel_multiple_time : ℕ
  pub settle_time : ℕ
  pub settle_all_time : ℕ
  pub banker_cuid : ℕ
  pub new_owner_id : ℕ
  pub settle_data : List (List PlayerData)
  pub bills : List Bill
  pub left : List ℕ

-- A room is opened for the banker's game unless the request asks for the normal one.
abbrev pub is_banker_game : Request → Bool
is_banker_game r = ltb 0 r.play_type

abbrev pub is_witness : PlayerStatus → Bool
is_witness witness = true
is_witness _ = false

abbrev pub is_ready : PlayerStatus → Bool
is_ready ready = true
is_ready _ = false

abbrev pub is_compare : PlayerStatus → Bool
is_compare compare = true
is_compare _ = false

-- `getValidPlayers` takes these seats.
abbrev pub is_valid : Seat → Bool
is_valid s = not (s.cuid == 0) && not (is_witness s.status)

unfoldable pub valid_players : List Seat → ℕ
valid_players [] = 0
valid_players (s ∷ l) = (if is_valid s then 1 else 0) + valid_players l

-- The tests at the head of `tryStartRound`.
unfoldable pub all_ready : (ℕ → Bool) → List Seat → Bool
all_ready online [] = true
all_ready online (s ∷ l) =
    let rest = all_ready online l in
    if (s.cuid == 0) || not (is_ready s.status)
    then false
    else if not (online s.cuid)
    then false
    else rest

unfoldable pub all_compared : List Seat → Bool
all_compared [] = true
all_compared (s ∷ l) =
    let rest = all_compared l in
    if is_valid s && not (is_compare s.status) && not (is_ready s.status) then false else rest

unfoldable pub may_start : (ℕ → Bool) → GameStatus → List Seat → Bool
may_start online prepare l = all_ready online l
may_start online quick_start l = true
may_start online settle l = all_compared l
may_start online _ l = false

-- The cards of a seat once `n` cards are dealt over its first ones.
abbrev pub dealt_cards : ℕ → List Card → List Card → List Card
dealt_cards n deck old = sort_up (take n deck ++ drop n old)

abbrev pub cons_seat : Seat → Option (List Seat × List Card) → Option (List Seat × List Card)
cons_seat s none = none
cons_seat s (some r) = some (s ∷ r.0, r.1)

-- The loop over the seats; none is a read behind the end of the deck. In the banker's game a
-- seat takes eight cards first.
unfoldable pub deal_loop : ℕ → PlayerStatus → List Card → List Seat → Option (List Seat × List Card)
deal_loop n next deck [] = some ([], deck)
deal_loop n next deck (s ∷ l) =
    let skipped = deal_loop n next deck l in
    let dealt = deal_loop n next (drop n deck) l in
    if is_witness s.status
    then cons_seat s skipped
    else if ltb (length deck) n
    then none
    else cons_seat (record s { status = next; cards = dealt_cards n deck s.cards }) dealt

-- The bill of a seat that is dealt its first hand.
unfoldable pub first_bill : (ℕ → Bool) → Room → Seat → List Bill
first_bill online room s =
    if is_witness s.status || not (online s.cuid)
    then []
    else if (room.attr.payor == 0) && (s.cuid == room.owner_cuid)
    then record { cuid = s.cuid; price = room.player_price * room.attr.player_size } ∷ []
    else if room.attr.payor == 1
    then record { cuid = s.cuid; price = room.player_price } ∷ []
    else []

-- The bills of a round, the newest first: only the first round has any.
unfoldable pub first_bills : (ℕ → Bool) → Room → List Seat → List Bill
unfolding first_bill
first_bills online room [] = []
first_bills online room (s ∷ l) = first_bills online room l ++ first_bill online room s

-- What is stored once the seats are dealt: the banker's game keeps five cards for each player.
unfoldable pub start_play : (ℕ → Bool) → ℕ → Room → Option (List Seat × List Card) → Option Room
unfolding first_bills
start_play online now room none = none
start_play online now room (some r) =
    let billed =
      (if room.round == 0 then first_bills online room room.players else []) ++ room.bills in
    if is_banker_game room.attr
    then (if ltb (length r.1) (valid_players r.0 * 5)
        then none
        else some (record room {
          status = GameStatus.sel_banker;
          round = room.round + 1;
          players = r.0;
          bills = billed;
          sel_banker_time = now;
          remain_brands = room.remain_brands ++ take (valid_players r.0 * 5) r.1;
        }))
    else some (record room {
      status = GameStatus.play;
      round = room.round + 1;
      players = r.0;
      bills = billed;
    })

unfoldable pub try_start_round : (ℕ → Bool) → (List Card → List Card) → ℕ → Room → Option Room
unfolding deal_loop
try_start_round online shuffle now room =
    let deck = shuffle (make_deck room.attr.with_ghost room.attr.player_size room.attr.suits) in
    let is_banker = is_banker_game room.attr in
    let dealt =
      deal_loop (if is_banker then 8 else 13) (if is_banker then banker else sort) deck
        room.players in
    if may_start online room.status room.players
    then start_play online now room dealt
    else some room

-- The five cards from place `i` on; the hand is sorted after each of them.
unfoldable pub fill_up : ℕ → List Card → List Card → List Card
fill_up i [] cards = cards
fill_up i (c ∷ more) cards = fill_up (i + 1) more (sort_up (set cards i c))

abbrev pub more_seat : Seat → Option (List Seat) → Option (List Seat)
more_seat s none = none
more_seat s (some l) = some (s ∷ l)

unfoldable pub fill_loop : List Card → List Seat → Option (List Seat)
unfolding fill_up
fill_loop remain [] = some []
fill_loop remain (s ∷ l) =
    let skipped = fill_loop remain l in
    let filled = fill_loop (drop 5 remain) l in
    if not (is_valid s)
    then more_seat s skipped
    else if ltb (length remain) 5
    then none
    else more_seat (record s { status = sort; cards = fill_up 8 (take 5 remain) s.cards }) filled

unfoldable pub chosen : List Seat → ℕ
chosen [] = 0
chosen (s ∷ l) = (if is_valid s && ltb_ℤ (pos 0) s.multiple then 1 else 0) + chosen l

abbrev pub is_sel_multiple : GameStatus → Bool
is_sel_multiple GameStatus.sel_multiple = true
is_sel_multiple _ = false

abbrev pub filled_room : Room → Option (List Seat) → Option Room
filled_room room none = none
filled_room room (some l) = some (record room {
  status = GameStatus.play;
  players = l;
  sel_multiple_time = 0;
  remain_brands = [];
})

-- `checkAllSelectMultiple`: all but the banker have chosen.
unfoldable pub check_all_select_multiple : Room → Option Room
unfolding fill_loop chosen valid_players
check_all_select_multiple room =
    if not (is_sel_multiple room.status)
    then some room
    else if chosen room.players + 1 == valid_players room.players
    then filled_room room (fill_loop room.remain_brands room.players)
    else some room
