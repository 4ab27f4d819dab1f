-- ===== src/Room/Bring.antt =====
-- What a player does in a round: `readyFlag` and `bringOut` of water13_card.cpp. The cards of a
-- message are a list of `uint16_t` values.
use chess_games.Prelude.{
  Bool, List, Option, [], drop, false, if◌then◌else◌, length, none, not, some, take, true, ℕ, ◌&&◌,
  ◌++◌, ◌==◌, ◌∷◌,
}
use chess_games.Room.Deal.{PlayerStatus, Room, Seat, compare, is_ready, is_witness, prep, ready}
use chess_games.Deck.{Card, cmp_brand_info, info}
use chess_games.Score.Players.{arranged, ◌>>=◌}
use chess_games.Room.Create.{sort_up}
use chess_games.Room.Seats.{is_prepare}
use chess_games.Room.Game.{Env, forget, get_player_info, start_round, update_info}
use chess_games.Room.Settle.{is_play, is_settle, try_settle_game}
use chess_games.Room.QuickStart.{is_quick_start}
use chess_games.Deck.Ghost.{brand_info, has_ghost}
use chess_games.Deck.Special.{SpecialBrand, g13_special_brand}

abbrev pub is_prep : PlayerStatus → Bool
is_prep prep = true
is_prep _ = false

abbrev pub is_sort : PlayerStatus → Bool
is_sort PlayerStatus.sort = true
is_sort _ = false

abbrev pub set_status : PlayerStatus → Seat → Seat
set_status st s = record s { status = st }

-- The handler once the client's seat is found.
unfoldable pub ready_flag_of : Env → ℕ → Bool → Room → Seat → Option Room
ready_flag_of env cuid flag room info =
    let changed = record room {
      players = update_info cuid (set_status (if flag then ready else prep)) room.players;
    } in
    if is_witness info.status
    then some room
    else if is_quick_start room.status
    then some room
    else if not (is_prepare room.status) && not (is_settle room.status)
    then some room
    else if (if flag then is_ready info.status else is_prep info.status)
    then some room
    else if flag
    then start_round env changed
    else some changed

abbrev pub at_seat : ℕ → Room → Option Seat → (Seat → Option Room) → Option Room
at_seat cuid room none f = some (forget cuid room)
at_seat cuid room (some s) f = f s

unfoldable pub ready_flag : Env → ℕ → Bool → Room → Option Room
unfolding ready_flag_of
ready_flag env cuid flag room =
    at_seat cuid room (get_player_info cuid room.players) (ready_flag_of env cuid flag room)

-- The sorted cards are those of the seat, in its order.
unfoldable pub same_cards : List Card → List Card → Bool
same_cards [] [] = true
same_cards (c ∷ l) (d ∷ m) = (c == d) && same_cards l m
same_cards _ _ = false

abbrev pub is_no_special : SpecialBrand → Bool
is_no_special SpecialBrand.none = true
is_no_special _ = false

-- The test of the rows; none is a brand that `brandInfo` does not give.
unfoldable pub legal_rows : Bool → List Card → Option Bool
legal_rows special cards = do
  d0 ← brand_info (take 3 cards)
  d1 ← brand_info (take 5 (drop 3 cards))
  d2 ← brand_info (take 5 (drop 8 cards))
  let tmp =
      arranged (take 3 cards)
      ++ (arranged (take 5 (drop 3 cards)) ++ arranged (take 5 (drop 8 cards)))
  some (
      if special
      then not (has_ghost tmp) && not (is_no_special (g13_special_brand tmp d1.b d2.b))
      else not (cmp_brand_info d0 d1 == 1) && not (cmp_brand_info d1 d2 == 1))

abbrev pub brought : Bool → List Card → Seat → Seat
brought special cards s = record s { status = compare; cards_spec_brand = special; cards = cards }

abbrev pub bring_legal : Env → ℕ → Bool → List Card → Room → Option Bool → Option Room
bring_legal env cuid special cards room none = none
bring_legal env cuid special cards room (some false) = some room
bring_legal env cuid special cards room (some true) =
    try_settle_game env
      (record room { players = update_info cuid (brought special cards) room.players })

unfoldable pub bring_out_of : Env → ℕ → Bool → List Card → Room → Seat → Option Room
unfolding same_cards legal_rows
bring_out_of env cuid special cards room info =
    if not (is_play room.status)
    then some room
    else if not (is_sort info.status)
    then some room
    else if not (length cards == 13)
    then some room
    else if not (same_cards (sort_up cards) info.cards)
    then some room
    else bring_legal env cuid special cards room (legal_rows special cards)

unfoldable pub bring_out : Env → ℕ → Bool → List Card → Room → Option Room
unfolding bring_out_of
bring_out env cuid special cards room =
    at_seat cuid room (get_player_info cuid room.players) (bring_out_of env cuid special cards room)
