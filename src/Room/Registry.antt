-- ===== src/Room/Registry.antt =====
-- The table of rooms of the lobby (server/processes/lobby/room.cpp): the ids, `Room::get`,
-- `Room::add` and `Room::timerExecAll`.
pub mod Ids
pub mod Again
pub mod Sweep
use chess_games.Room.Seats.{RoomInfo}
use chess_games.Prelude.{
  Bool, List, Option, [], false, if◌then◌else◌, length, ltb, none, not, some, suc, true, zero, ℕ,
  ◌%◌, ◌++◌, ◌+◌, ◌==◌, ◌^◌, ◌||◌, ◌∷◌,
}
use chess_games.Score.Players.{◌>>=◌}
use chess_games.Room.Deal.{Room}
use chess_games.Room.Game.{Env}
use chess_games.Room.Timer.{timer_exec}

-- A room with what does not change in it, its id in the table included. `getId()` is 0 once the
-- room is `expired`.
pub record Entry : Type 0 where
  pub fixed : RoomInfo
  pub room : Room

-- `s_rooms`, in the order in which the table is gone through, and `s_expiredIds`.
pub record Registry : Type 0 where
  pub rooms : List Entry
  pub expired_ids : List ℕ

-- `Room::get`; none is nullptr.
unfoldable pub find_room : ℕ → List Entry → Option Entry
find_room id [] = none
find_room id (e ∷ l) = let rest = find_room id l in if e.fixed.id == id then some e else rest

abbrev pub is_none : Option Entry → Bool
is_none none = true
is_none (some e) = false

-- `++id > 999999`, on 32 bits.
unfoldable pub next_id : ℕ → ℕ
next_id id = let i = (id + 1) % 2 ^ 32 in if ltb 999999 i then 100001 else i

-- The loop of `getRoomId`, with the expired ids that are left.
unfoldable pub id_loop : ℕ → List Entry → ℕ → List ℕ → Option (ℕ × List ℕ)
unfolding next_id
id_loop zero rooms id ids = none
id_loop (suc n) rooms id [] =
    let rest = id_loop n rooms (next_id id) [] in
    if (id == 0) || not (is_none (find_room id rooms)) then rest else some (id, [])
id_loop (suc n) rooms id (i ∷ ids) =
    let rest = id_loop n rooms i ids in
    if (id == 0) || not (is_none (find_room id rooms)) then rest else some (id, i ∷ ids)

-- `getRoomId`, where `first` is the random id, from 100001 to 999999.
unfoldable pub get_room_id_in : ℕ → List Entry → ℕ → List ℕ → Option (ℕ × List ℕ)
get_room_id_in fuel rooms first [] = id_loop fuel rooms first []
get_room_id_in fuel rooms first (i ∷ ids) =
    if ltb 1000 (length (i ∷ ids)) then some (i, ids) else id_loop fuel rooms first (i ∷ ids)

unfoldable pub get_room_id : ℕ → ℕ → Registry → Option (ℕ × List ℕ)
get_room_id fuel first reg = get_room_id_in fuel reg.rooms first reg.expired_ids

-- `Room::add`; an `insert` changes nothing where the id is there.
unfoldable pub add_room : Entry → Registry → Bool × Registry
add_room e reg =
    if is_none (find_room e.fixed.id reg.rooms)
    then (true, record reg { rooms = e ∷ reg.rooms })
    else (false, reg)

-- The loop of `timerExecAll`, which ends behind the first room that it erases; the id of that one.
unfoldable pub timer_loop : Env → List Entry → Option (List Entry × Option ℕ)
timer_loop env [] = some ([], none)
timer_loop env (e ∷ l) =
    let rest = timer_loop env l in
    if e.room.expired then some (l, some e.fixed.id) else do
      r ← timer_exec (record env { is_card_mode = e.fixed.is_card_mode }) e.room
      t ← rest
      some (record e { room = r } ∷ t.0, t.1)

abbrev pub swept : Registry → Option (List Entry × Option ℕ) → Option Registry
swept reg none = none
swept reg (some (l, none)) = some (record reg { rooms = l })
swept reg (some (l, some id)) =
    some (record { rooms = l; expired_ids = reg.expired_ids ++ id ∷ [] })

unfoldable pub timer_exec_all : Env → Registry → Option Registry
unfolding timer_loop
timer_exec_all env reg = swept reg (timer_loop env reg.rooms)
