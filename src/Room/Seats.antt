-- ===== src/Room/Seats.antt =====
-- How a client takes a seat and leaves it: `enterRoom`, `getEmptySeatIndex` and `removePlayer` of
-- `Water13`. Names, pictures, messages and the history of a client's games are left out; an amount
-- of money is an integer.
use chess_games.Prelude.{
  Bool, List, Option, [], false, if◌then◌else◌, none, not, some, suc, true, zero, ℕ, ◌&&◌, ◌*◌, ◌+◌,
  ◌==◌, ◌||◌, ◌∷◌,
}
use chess_games.Prelude.Int.{ltb_ℤ, pos, ℤ}
use chess_games.Room.Deal.{GameStatus, PlayerStatus, Room, Seat, prep, prepare, witness}

-- What entering reads and writes of a `Client`.
pub record Client : Type 0 where
  pub cuid : ℕ
  pub roomid : ℕ
  pub money : ℤ

-- What does not change in a room. `is_card_mode` tells a `Water13_Card`.
pub record RoomInfo : Type 0 where
  pub id : ℕ
  pub is_card_mode : Bool
  pub half_enter : Bool

-- `Client::enoughMoney`.
unfoldable pub enough_money : Client → ℕ → Bool
enough_money c price = ltb_ℤ (pos price) c.money

abbrev pub next_seat : Option ℕ → Option ℕ
next_seat none = none
next_seat (some i) = some (i + 1)

-- none is `NO_POS`.
unfoldable pub empty_seat_index : List Seat → Option ℕ
empty_seat_index [] = none
empty_seat_index (s ∷ l) =
    let rest = empty_seat_index l in if s.cuid == 0 then some 0 else next_seat rest

-- The test of the money.
unfoldable pub can_pay : Room → Client → Bool
unfolding enough_money
can_pay room c =
    let total = room.player_price * room.attr.player_size in
    if room.attr.payor == 0
    then (if room.owner_cuid == c.cuid then enough_money c total else true)
    else if room.attr.payor == 1
    then enough_money c room.player_price
    else if room.attr.payor == 2
    then enough_money c total
    else false

abbrev pub is_prepare : GameStatus → Bool
is_prepare prepare = true
is_prepare _ = false

unfoldable pub sit : ℕ → ℕ → PlayerStatus → List Seat → List Seat
sit i cuid status [] = []
sit zero cuid status (s ∷ l) = record s { cuid = cuid; status = status } ∷ l
sit (suc i) cuid status (s ∷ l) = s ∷ sit i cuid status l

-- The client is seated unless there is no seat or no money.
unfoldable pub take_seat : RoomInfo → Room → Client → Option ℕ → Bool × Room × Client
take_seat fixed room c none = (false, room, c)
take_seat fixed room c (some i) =
    if fixed.is_card_mode && not (can_pay room c) then (false, room, c) else (
      true,
      record room {
        players =
            sit i c.cuid (if (room.round == 0) && is_prepare room.status then prep else witness)
              room.players;
      },
      record c { roomid = fixed.id },
    )

unfoldable pub enter_room : RoomInfo → Room → Client → Bool × Room × Client
unfolding take_seat
enter_room fixed room c =
    if not (c.roomid == 0)
    then (c.roomid == fixed.id, room, c)
    else if not (fixed.is_card_mode && fixed.half_enter)
        && (not (is_prepare room.status) || not (room.round == 0))
    then (false, room, c)
    else take_seat fixed room c (empty_seat_index room.players)

unfoldable pub clear_seat : ℕ → List Seat → List Seat
clear_seat cuid [] = []
clear_seat cuid (s ∷ l) =
    let rest = clear_seat cuid l in
    if s.cuid == cuid then record s { cuid = 0; status = PlayerStatus.empty } ∷ l else s ∷ rest

unfoldable pub is_seated : ℕ → List Seat → Bool
is_seated cuid [] = false
is_seated cuid (s ∷ l) = let rest = is_seated cuid l in if s.cuid == cuid then true else rest

-- The client's `afterLeaveRoom` is called where it has a seat.
unfoldable pub remove_player : Room → Client → Room × Client
unfolding clear_seat is_seated
remove_player room c =
    if is_seated c.cuid room.players
    then (record room { players = clear_seat c.cuid room.players }, record c { roomid = 0 })
    else (room, c)
