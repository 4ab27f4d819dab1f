-- ===== src/Room/Chips.antt =====
-- The banker's game before the last cards: `proto_C_G13_ChipInPoint`, `checkAllChipInPoint` and
-- `proto_C_G13_SelectMultiple` of water13.cpp. A point is a signed number, as in the message.
use chess_games.Prelude.{
  Bool, List, Option, [], false, if◌then◌else◌, length, not, some, suc, true, zero, ℕ, ◌&&◌, ◌+◌,
  ◌-◌, ◌==◌, ◌∷◌,
}
use chess_games.Room.Deal.{
  GameStatus, PlayerStatus, Room, Seat, check_all_select_multiple, is_sel_multiple, is_valid,
  sel_banker,
}
use chess_games.Prelude.Int.{eqb_ℤ, ltb_ℤ, pos, ℤ}
use chess_games.Room.Seats.{is_seated}
use chess_games.Room.Game.{Env, update_info, update_valid}

abbrev pub is_sel_banker : GameStatus → Bool
is_sel_banker sel_banker = true
is_sel_banker _ = false

-- `getValidPlayers`.
unfoldable pub valid_seats : List Seat → List Seat
valid_seats [] = []
valid_seats (s ∷ l) = if is_valid s then s ∷ valid_seats l else valid_seats l

-- The first loop of `checkAllChipInPoint`: how many have a point, and the greatest point with the
-- first player that has it. Player 0 is NULL.
unfoldable pub chipped : List Seat → ℕ
chipped [] = 0
chipped (s ∷ l) = (if ltb_ℤ (pos 0) s.chip_in then 1 else 0) + chipped l

unfoldable pub max_chip : ℤ → ℕ → List Seat → ℤ × ℕ
max_chip point player [] = (point, player)
max_chip point player (s ∷ l) =
    max_chip (if ltb_ℤ point s.chip_in then s.chip_in else point)
      (if ltb_ℤ point s.chip_in then s.cuid else player) l

-- `needRandom`.
unfoldable pub all_chip : ℤ → List Seat → Bool
all_chip point [] = true
all_chip point (s ∷ l) = eqb_ℤ point s.chip_in && all_chip point l

unfoldable pub cuid_at : List Seat → ℕ → ℕ
cuid_at [] i = 0
cuid_at (s ∷ l) zero = s.cuid
cuid_at (s ∷ l) (suc i) = cuid_at l i

abbrev pub chosen_banker : Seat → Seat
chosen_banker s = record s { chip_in = pos 0; status = PlayerStatus.sel_multiple }

unfoldable pub check_all_chip_in_point : Env → Room → Room
unfolding valid_seats chipped max_chip all_chip cuid_at
check_all_chip_in_point env room =
    let vec = valid_seats room.players in
    let best = max_chip (pos 0) 0 vec in
    if not (is_sel_banker room.status)
    then room
    else if not (chipped vec == length vec)
    then room
    else if eqb_ℤ best.0 (pos 0)
    then room
    else record room {
      players = update_valid chosen_banker room.players;
      banker_cuid =
          if all_chip best.0 vec then cuid_at vec (env.random (length vec) - 1) else best.1;
      sel_multiple_time = env.now;
      status = GameStatus.sel_multiple;
      sel_banker_time = 0;
    }

abbrev pub set_chip_in : ℤ → Seat → Seat
set_chip_in p s = record s { chip_in = p }

abbrev pub set_multiple : ℤ → Seat → Seat
set_multiple p s = record s { multiple = p }

unfoldable pub chip_in_point : Env → ℕ → ℤ → Room → Option Room
chip_in_point env cuid point room =
    if not (is_sel_banker room.status)
    then some room
    else if not (is_seated cuid room.players)
    then some room
    else if ltb_ℤ (pos room.banker_multiple) point
    then some room
    else some (
        check_all_chip_in_point env
          (record room { players = update_info cuid (set_chip_in point) room.players }))

unfoldable pub select_multiple : ℕ → ℤ → Room → Option Room
select_multiple cuid point room =
    if not (is_sel_multiple room.status)
    then some room
    else if not (is_seated cuid room.players)
    then some room
    else if ltb_ℤ (pos room.banker_multiple) point
    then some room
    else check_all_select_multiple
        (record room { players = update_info cuid (set_multiple point) room.players })
