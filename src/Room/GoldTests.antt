-- ===== src/Room/GoldTests.antt =====
-- Rooms of gold.
use chess_games.Room.Scenarios.{process}
use chess_games.Room.Tables.{at_id}
use chess_games.Room.Gold.{Places}
use chess_games.Prelude.{[], false, ◌∷◌}
use chess_games.Prelude.Int.{pos}
use chess_games.Room.Seats.{Client}
use chess_games.Room.Game.{Env}

abbrev gold_process : Env
gold_process = record (process 100) { is_card_mode = false }

abbrev place_one : Places
place_one = record {
  table = record { rooms = at_id 100003 false ∷ at_id 100004 false ∷ []; expired_ids = [] };
  rooms_arr = (1, 100003 ∷ 100004 ∷ []) ∷ [];
}

abbrev bored : Client
bored = record { cuid = 7; roomid = 100004; money = pos 100 }
