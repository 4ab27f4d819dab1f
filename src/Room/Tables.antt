-- ===== src/Room/Tables.antt =====
-- Rooms that are opened in a table, and the timer over it.
use chess_games.Room.Scenarios.{process}
use chess_games.Room.Tests.{accepted, opened, prices, two_players}
use chess_games.Room.Open.Stranded.{create_game-stranded}
use chess_games.Room.Registry.Sweep.{id_count, timer_exec_all-ids}
use chess_games.Prelude.{
  Bool, List, [], arith, count, false, length, refl, some, suc, true, zero, ℕ, ◌+◌, ◌∷◌, ◌≡◌, ◌≢◌,
}
use chess_games.Prelude.Int.{pos}
use chess_games.Room.Deal.{GameStatus, closed}
use chess_games.Room.Seats.{Client, can_pay, enough_money}
use chess_games.Room.Game.{Env}
use chess_games.Room.Timer.{timer_exec, timer_exec_in}
use chess_games.Room.Registry.{Entry, Registry, find_room, get_room_id, timer_exec_all, timer_loop}
use chess_games.Room.Open.{CreateGame, create_game, new_game, price_of}
use chess_games.Room.OneSeat.{held}
use chess_games.Room.Registry.Ids.{IsFree, IsId, get_room_id-IsFree}
use chess_games.Room.Open.Opens.{create_game-opens}

abbrev no_rooms : Registry
no_rooms = record { rooms = []; expired_ids = 100007 ∷ [] }

abbrev request : CreateGame
request = record { request = two_players; half_enter = false; banker_multiple = 0 }

abbrev rich : Client
rich = record { cuid = 7; roomid = 0; money = pos 100 }

abbrev poor : Client
poor = record { cuid = 7; roomid = 0; money = pos 1 }

get_room_id-IsFree_example :
    (r : ℕ × List ℕ) × (get_room_id 900000 100005 no_rooms ≡ some r) × IsFree [] r.0 × IsId r.0
unfolding find_room
get_room_id-IsFree_example =
    get_room_id-IsFree no_rooms 900000 100005 100009 (omega arith) (omega arith, tt) (omega arith)
      (omega arith) refl (omega arith)

create_game-opens_example :
    (e : Entry) × (next : Registry) × (create_game 900000 100005 prices [] request rich no_rooms
      ≡ some (next, record rich { roomid = e.fixed.id }))
    × IsFree [] e.fixed.id
    × (find_room e.fixed.id next.rooms ≡ some e)
    × (e.room.status ≡ GameStatus.prepare)
    × (held 7 e.room.players ≡ 1)
    × ((j : ℕ) → j ≢ e.fixed.id → find_room j next.rooms ≡ find_room j [])
unfolding find_room can_pay enough_money new_game price_of
create_game-opens_example =
    create_game-opens 900000 100005 100009 prices [] request rich no_rooms (omega arith) refl
      accepted refl (omega arith) (omega arith, tt) (omega arith) (omega arith) refl (omega arith)

create_game-stranded_example :
    (e : Entry) × (next : Registry) × (create_game 900000 100005 prices [] request poor no_rooms
      ≡ some (next, poor))
    × (find_room e.fixed.id next.rooms ≡ some e)
    × ((cuid : ℕ) → cuid ≢ 0 → held cuid e.room.players ≡ 0)
    × ((env : Env) → timer_exec env e.room ≡ some e.room)
unfolding find_room can_pay enough_money new_game price_of
create_game-stranded_example =
    create_game-stranded 900000 100005 100009 prices [] request poor no_rooms refl accepted refl
      (omega arith) (omega arith, tt) (omega arith) (omega arith) refl (omega arith)

abbrev pub at_id : ℕ → Bool → Entry
at_id id expired = record {
  fixed = record { id = id; is_card_mode = true; half_enter = false };
  room = record opened { expired = expired; status = closed };
}

abbrev three_rooms : Registry
three_rooms = record {
  rooms = at_id 100001 false ∷ at_id 100002 true ∷ at_id 100003 true ∷ [];
  expired_ids = [];
}

abbrev after_tick : Registry
after_tick = record {
  rooms = at_id 100001 true ∷ at_id 100003 true ∷ [];
  expired_ids = 100002 ∷ [];
}

tick : timer_exec_all (process 100) three_rooms ≡ some after_tick
unfolding timer_exec_all timer_loop timer_exec timer_exec_in
tick = refl

timer_exec_all-ids_example :
    ((y : ℕ)
      → id_count y after_tick.rooms + count y (100002 ∷ [])
        ≡ id_count y three_rooms.rooms + count y [])
    × (length after_tick.expired_ids ≡ 1)
timer_exec_all-ids_example = timer_exec_all-ids (process 100) three_rooms after_tick tick

abbrev many_ids : ℕ → List ℕ
many_ids zero = []
many_ids (suc n) = 200000 ∷ many_ids n
