-- ===== src/Room/Game.antt =====
-- What the handlers of a room share: the process around it, its seats by client, and the end of a
-- room (`Water13::abortGame`).
use chess_games.Prelude.{
  Bool, List, Option, [], if◌then◌else◌, none, some, true, ℕ, ◌++◌, ◌==◌, ◌∷◌,
}
use chess_games.Room.Deal.{Room, Seat, closed, is_valid, try_start_round}
use chess_games.Prelude.Int.{ℤ}
use chess_games.Deck.{Card}
use chess_games.Room.Seats.{clear_seat, is_seated}

-- The process around a room: who is connected, the shuffle, `Random(1, n).get()`, the time of
-- the timer, the kind of the room, and a value of the game's configuration.
pub record Env : Type 0 where
  pub online : ℕ → Bool
  pub shuffle : List Card → List Card
  pub random : ℕ → ℕ
  pub now : ℕ
  pub is_card_mode : Bool
  pub shoot_add_point : ℤ

-- `getPlayerInfoByCuid`; none is nullptr.
unfoldable pub get_player_info : ℕ → List Seat → Option Seat
get_player_info cuid [] = none
get_player_info cuid (s ∷ l) =
    let rest = get_player_info cuid l in if s.cuid == cuid then some s else rest

-- A write through the pointer that `getPlayerInfoByCuid` gives.
unfoldable pub update_info : ℕ → (Seat → Seat) → List Seat → List Seat
update_info cuid f [] = []
update_info cuid f (s ∷ l) =
    let rest = update_info cuid f l in if s.cuid == cuid then f s ∷ l else s ∷ rest

-- A write to each seat that `getValidPlayers` takes.
unfoldable pub update_valid : (Seat → Seat) → List Seat → List Seat
update_valid f [] = []
update_valid f (s ∷ l) = (if is_valid s then f s else s) ∷ update_valid f l

-- The connected clients of the seats, in whatever seat.
unfoldable pub connected : (ℕ → Bool) → List Seat → List ℕ
connected online [] = []
connected online (s ∷ l) = (if online s.cuid then s.cuid ∷ [] else []) ++ connected online l

unfoldable pub abort_game : Env → Room → Room
unfolding connected
abort_game env room = record room {
  players = [];
  status = closed;
  expired = true;
  left = connected env.online room.players ++ room.left;
}

-- A client that has no seat is told so.
abbrev pub forget : ℕ → Room → Room
forget cuid room = record room { left = cuid ∷ room.left }

-- `removePlayer` of a client that is known by its cuid.
unfoldable pub remove_cuid : ℕ → Room → Room
remove_cuid cuid room =
    if is_seated cuid room.players
    then record room { players = clear_seat cuid room.players; left = cuid ∷ room.left }
    else room

-- `Water13::tryStartRound` in the process.
abbrev pub start_round : Env → Room → Option Room
start_round env room = try_start_round env.online env.shuffle env.now room
