-- ===== src/Room/Renew.antt =====
-- Who joins a running game and who plays another one: `proto_C_G13_ReplyHalfEnter`,
-- `proto_C_G13_RenewRoom`, `proto_C_G13_RenewReply` and `checkAllRenewReply` of water13_card.cpp.
use chess_games.Prelude.{
  Bool, List, Option, [], false, if◌then◌else◌, none, not, some, true, ℕ, ◌&&◌, ◌+◌, ◌==◌, ◌∷◌,
}
use chess_games.Room.Deal.{
  GameStatus, Room, Seat, is_valid, is_witness, prep, prepare, ready, settle_all, valid_players,
}
use chess_games.Prelude.Int.{pos}
use chess_games.Deck.{info}
use chess_games.Room.Seats.{is_seated}
use chess_games.Room.Game.{Env, forget, get_player_info, remove_cuid, update_info, update_valid}
use chess_games.Room.Bring.{set_status}

abbrev pub is_settle_all : GameStatus → Bool
is_settle_all settle_all = true
is_settle_all _ = false

-- The reply on the witness `cuid`. Any client of the room may send it.
unfoldable pub reply_half_enter_of : Env → ℕ → Bool → Room → Option Seat → Room
reply_half_enter_of env cuid reply room none = room
reply_half_enter_of env cuid reply room (some info) =
    if not (is_witness info.status)
    then room
    else if reply
    then record room { players = update_info cuid (set_status ready) room.players }
    else if env.online info.cuid
    then forget info.cuid room
    else room

unfoldable pub reply_half_enter : Env → ℕ → Bool → Room → Option Room
unfolding reply_half_enter_of
reply_half_enter env cuid reply room =
    some (reply_half_enter_of env cuid reply room (get_player_info cuid room.players))

unfoldable pub renew_room : ℕ → ℕ → Room → Option Room
renew_room cuid payor room =
    if not (is_seated cuid room.players)
    then some (forget cuid room)
    else if not (room.new_owner_id == 0)
    then some room
    else if not (is_settle_all room.status)
    then some room
    else if not (payor == 1) && not (payor == 0)
    then some room
    else some (record room { new_owner_id = cuid })

unfoldable pub replied : List Seat → ℕ
replied [] = 0
replied (s ∷ l) = (if is_valid s && s.renew_reply then 1 else 0) + replied l

abbrev pub renewed : Seat → Seat
renewed s = record s { status = prep; rank = pos 0 }

-- All valid players but the one that asked have to reply.
unfoldable pub check_all_renew_reply : Room → Room
unfolding replied
check_all_renew_reply room =
    if not (is_settle_all room.status)
    then room
    else if replied room.players + 1 == valid_players room.players
    then record room {
      players = update_valid renewed room.players;
      owner_cuid = room.new_owner_id;
      status = prepare;
      round = 0;
      new_owner_id = 0;
    }
    else room

abbrev pub set_renew_reply : Seat → Seat
set_renew_reply s = record s { renew_reply = true }

unfoldable pub renew_reply : ℕ → Bool → Room → Option Room
renew_reply cuid reply room =
    if not (is_settle_all room.status)
    then some room
    else if not reply
    then some (remove_cuid cuid room)
    else if not (is_seated cuid room.players)
    then some (forget cuid room)
    else some (
        check_all_renew_reply
          (record room { players = update_info cuid set_renew_reply room.players }))
