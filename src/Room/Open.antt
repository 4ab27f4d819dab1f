-- ===== src/Room/Open.antt =====
-- Rooms of cards that clients open and enter: `proto_C_G13_CreateGame` and
-- `proto_C_G13_JoinGame` (server/processes/lobby/water13_card.cpp). A handler takes the client
-- that sent the message.
pub mod Opens
pub mod Stranded
use chess_games.Room.Registry.{Entry, Registry, add_room, find_room, get_room_id}
use chess_games.Room.Seats.{Client, enter_room}
use chess_games.Prelude.{
  Bool, List, Option, [], false, if◌then◌else◌, none, not, some, suc, true, zero, ℕ, ◌==◌, ◌∷◌,
}
use chess_games.Prelude.Int.{pos}
use chess_games.Deck.{Card, rank}
use chess_games.Room.Create.{Config, Request, check_request}
use chess_games.Room.Deal.{GameStatus, PlayerStatus, Room, Seat, unvoted, vote}
use chess_games.Room.Renew.{renew_reply}

-- What `C_G13_CreateGame` has beside what its tests read.
pub record CreateGame : Type 0 where
  pub request : Request
  pub half_enter : Bool
  pub banker_multiple : ℕ

-- `pricePerPlayer` at the number of rounds.
unfoldable pub price_of : ℕ → List (ℕ × ℕ) → ℕ
price_of rounds [] = 0
price_of rounds ((k, v) ∷ m) = if k == rounds then v else price_of rounds m

-- A seat of `m_players.resize`; its cards are what the memory holds.
abbrev pub free_seat : List Card → Seat
free_seat memory = record {
  cuid = 0;
  status = PlayerStatus.empty;
  vote = unvoted;
  rank = pos 0;
  cards_spec_brand = false;
  cards = memory;
  chip_in = pos 0;
  multiple = pos 0;
  renew_reply = false;
}

unfoldable pub free_seats : ℕ → List Card → List Seat
free_seats zero memory = []
free_seats (suc n) memory = free_seat memory ∷ free_seats n memory

-- The new game.
unfoldable pub new_game : Config → List Card → CreateGame → ℕ → Room
unfolding price_of free_seats
new_game cfg memory rcv owner = record {
  attr = rcv.request;
  expired = false;
  player_price = price_of rcv.request.rounds cfg.price_per_player;
  banker_multiple = rcv.banker_multiple;
  owner_cuid = owner;
  status = GameStatus.prepare;
  round = 0;
  players = free_seats rcv.request.player_size memory;
  remain_brands = [];
  start_vote_time = 0;
  vote_sponsor_cuid = 0;
  quick_start_time = 0;
  sel_banker_time = 0;
  sel_multiple_time = 0;
  settle_time = 0;
  settle_all_time = 0;
  banker_cuid = 0;
  new_owner_id = 0;
  settle_data = [];
  bills = [];
  left = [];
}

-- A write to the room that the table has under the id.
unfoldable pub put_room : ℕ → Room → List Entry → List Entry
put_room id room [] = []
put_room id room (e ∷ l) =
    let rest = put_room id room l in
    if e.fixed.id == id then record e { room = room } ∷ l else e ∷ rest

-- `enterRoom` of the room under the id.
abbrev pub entered : Registry → Client → Option Entry → Registry × Client
entered reg c none = (reg, c)
entered reg c (some e) =
    let r = enter_room e.fixed e.room c in
    (record reg { rooms = put_room e.fixed.id r.1 reg.rooms }, r.2)

-- The game under its new id is added, and the client enters it.
abbrev pub opened_at :
    Config
    → List Card
    → CreateGame
    → Client
    → Registry
    → Option (ℕ × List ℕ)
    → Option (Registry × Client)
opened_at cfg memory rcv c reg none = none
opened_at cfg memory rcv c reg (some (id, ids)) =
    let e : Entry = record {
      fixed = record { id = id; is_card_mode = true; half_enter = rcv.half_enter };
      room = new_game cfg memory rcv c.cuid;
    } in
    let r = add_room e (record reg { expired_ids = ids }) in
    if r.0 then some (entered r.1 c (some e)) else some (r.1, c)

-- none is a loop for the id that has not ended within the fuel.
unfoldable pub create_game :
    ℕ → ℕ → Config → List Card → CreateGame → Client → Registry → Option (Registry × Client)
unfolding new_game
create_game fuel first cfg memory rcv c reg =
    if not (c.roomid == 0)
    then some (reg, c)
    else if not (check_request cfg rcv.request == 0)
    then some (reg, c)
    else opened_at cfg memory rcv c reg (get_room_id fuel first reg)

unfoldable pub join_game : ℕ → Client → Registry → Registry × Client
join_game id c reg = entered reg c (find_room id reg.rooms)
