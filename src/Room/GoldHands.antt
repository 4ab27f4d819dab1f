-- ===== src/Room/GoldHands.antt =====
-- What a player does in a room of gold: `giveUp`, `readyFlag` and `bringOut` of water13_gold.cpp.
use chess_games.Prelude.{
  Bool, List, Option, false, if◌then◌else◌, length, none, not, some, true, ℕ, ◌==◌,
}
use chess_games.Deck.{Card, info}
use chess_games.Room.Create.{sort_up}
use chess_games.Room.Deal.{
  GameStatus, Room, Seat, closed, is_ready, is_witness, prep, prepare, ready, settle_all,
}
use chess_games.Room.Seats.{is_prepare, is_seated}
use chess_games.Room.Game.{
  Env, abort_game, forget, get_player_info, remove_cuid, start_round, update_info,
}
use chess_games.Room.Settle.{is_play, is_settle, try_settle_game}
use chess_games.Room.QuickStart.{is_quick_start}
use chess_games.Room.Bring.{at_seat, brought, is_prep, is_sort, legal_rows, same_cards, set_status}

abbrev pub aborted : Env → Room → Room
aborted env room = if length room.players == 0 then abort_game env room else room

-- The `switch` of `giveUp`.
unfoldable pub gold_give_up_in : Env → ℕ → GameStatus → Room → Room
gold_give_up_in env cuid prepare room = aborted env (remove_cuid cuid room)
gold_give_up_in env cuid settle_all room = remove_cuid cuid room
gold_give_up_in env cuid closed room = remove_cuid cuid room
gold_give_up_in env cuid _ room = room

unfoldable pub gold_give_up : Env → ℕ → Room → Room
gold_give_up env cuid room =
    if not (is_seated cuid room.players)
    then forget cuid room
    else gold_give_up_in env cuid room.status room

unfoldable pub gold_ready_flag_of : Env → ℕ → Bool → Room → Seat → Option Room
gold_ready_flag_of env cuid flag room info =
    let changed = record room {
      players = update_info cuid (set_status (if flag then ready else prep)) room.players;
    } in
    if is_witness info.status
    then some room
    else if is_quick_start room.status
    then some room
    else if not (is_prepare room.status)
    then some room
    else if (if flag then is_ready info.status else is_prep info.status)
    then some room
    else if flag
    then start_round env changed
    else some changed

unfoldable pub gold_ready_flag : Env → ℕ → Bool → Room → Option Room
unfolding gold_ready_flag_of
gold_ready_flag env cuid flag room =
    at_seat cuid room (get_player_info cuid room.players) (gold_ready_flag_of env cuid flag room)

-- The next round starts at once after a settlement.
abbrev pub next_round : Env → Option Room → Option Room
next_round env none = none
next_round env (some room) = if is_settle room.status then start_round env room else some room

abbrev pub gold_bring_legal : Env → ℕ → Bool → List Card → Room → Option Bool → Option Room
gold_bring_legal env cuid special cards room none = none
gold_bring_legal env cuid special cards room (some false) = some room
gold_bring_legal env cuid special cards room (some true) = next_round env (
    try_settle_game env
      (record room { players = update_info cuid (brought special cards) room.players }))

unfoldable pub gold_bring_out_of : Env → ℕ → Bool → List Card → Room → Seat → Option Room
gold_bring_out_of env cuid special cards room info =
    if not (is_play room.status)
    then some room
    else if not (is_sort info.status)
    then some room
    else if not (length cards == 13)
    then some room
    else if not (same_cards (sort_up cards) info.cards)
    then some room
    else gold_bring_legal env cuid special cards room (legal_rows special cards)

unfoldable pub gold_bring_out : Env → ℕ → Bool → List Card → Room → Option Room
unfolding gold_bring_out_of
gold_bring_out env cuid special cards room =
    at_seat cuid room (get_player_info cuid room.players)
      (gold_bring_out_of env cuid special cards room)
