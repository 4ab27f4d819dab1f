-- ===== src/Room/Open/Opens.antt =====
-- A client opens a room.
use chess_games.Room.Open.{CreateGame, create_game, free_seats, new_game, opened_at, put_room}
use chess_games.Room.OneSeat.{held}
use chess_games.Prelude.{
  All, Bool, List, ap, arith, false, length, not, refl, some, suc, true, zero, ℕ, ◌&&◌, ◌+◌, ◌==◌,
  ◌∙◌, ◌∷◌, ◌≡◌, ◌≢◌, ◌≤◌,
}
use chess_games.Deck.{Card}
use chess_games.Room.Create.{Config, check_request}
use chess_games.Room.Deal.{GameStatus, Room, prep}
use chess_games.Room.Seats.{Client, RoomInfo, can_pay, empty_seat_index, enter_room, sit, take_seat}
use chess_games.Room.Registry.{Entry, Registry, add_room, find_room, get_room_id}
use chess_games.Room.Registry.Ids.{IsFree, IsId, get_room_id-IsFree}
use chess_games.Room.Enough.{check_request-sizes}

pub held-free_seats :
    (n : ℕ) (memory : List Card) (cuid : ℕ) → cuid ≢ 0 → held cuid (free_seats n memory) ≡ 0
unfolding free_seats
held-free_seats zero memory cuid h = refl
held-free_seats (suc n) memory cuid h = ground (arith, held-free_seats n memory cuid h)

-- The room that the client is to get.
abbrev pub opened_room : Config → List Card → CreateGame → Client → Room
opened_room cfg memory rcv c = record (new_game cfg memory rcv c.cuid) {
  players = sit 0 c.cuid prep (free_seats rcv.request.player_size memory);
}

and_false : (b c : Bool) → c ≡ false → (b && c) ≡ false
and_false b c h = ground arith

pub first_seat :
    (n : ℕ) (memory : List Card) → 2 ≤ n → empty_seat_index (free_seats n memory) ≡ some 0
unfolding empty_seat_index free_seats
first_seat zero memory h = absurd (omega (arith, h))
first_seat (suc n) memory h = refl

enter_new :
    (cfg : Config) (memory : List Card) (rcv : CreateGame) (c : Client) (fixed : RoomInfo)
    → c.roomid ≡ 0
    → 2 ≤ rcv.request.player_size
    → can_pay (new_game cfg memory rcv c.cuid) c ≡ true
    → enter_room fixed (new_game cfg memory rcv c.cuid) c
      ≡ (true, opened_room cfg memory rcv c, record c { roomid = fixed.id })
unfolding enter_room take_seat new_game
enter_new cfg memory rcv c fixed out two pays =
    let lobby : not (c.roomid == 0) ≡ false = ground (arith, out) in
    let early : (not (fixed.is_card_mode && fixed.half_enter) && false) ≡ false =
      and_false _ false refl in
    let rich : (fixed.is_card_mode && not (can_pay (new_game cfg memory rcv c.cuid) c)) ≡ false =
      and_false fixed.is_card_mode _ (ap not pays) in
    rw (lobby, early, first_seat rcv.request.player_size memory two, rich) refl

-- The table with the client's room in it.
abbrev pub opened_table : Registry → List ℕ → RoomInfo → Room → Registry
opened_table reg ids fixed room = record {
  rooms = record { fixed = fixed; room = room } ∷ reg.rooms;
  expired_ids = ids;
}

abbrev pub card_room : CreateGame → ℕ → RoomInfo
card_room rcv id = record { id = id; is_card_mode = true; half_enter = rcv.half_enter }

opened_at-eq :
    (cfg : Config) (memory : List Card) (rcv : CreateGame) (c : Client) (reg : Registry) (id : ℕ)
    (ids : List ℕ)
    → c.roomid ≡ 0
    → 2 ≤ rcv.request.player_size
    → can_pay (new_game cfg memory rcv c.cuid) c ≡ true
    → IsFree reg.rooms id
    → opened_at cfg memory rcv c reg (some (id, ids))
      ≡ some (
        opened_table reg ids (card_room rcv id) (opened_room cfg memory rcv c),
        record c { roomid = id },
      )
unfolding add_room put_room
opened_at-eq cfg memory rcv c reg id ids out two pays free =
    let same : (id == id) ≡ true = ground arith in
    rw (free, enter_new cfg memory rcv c (card_room rcv id) out two pays, same) refl

held-sit :
    (n cuid : ℕ) (memory : List Card)
    → 2 ≤ n
    → cuid ≢ 0
    → held cuid (sit 0 cuid prep (free_seats n memory)) ≡ 1
unfolding sit free_seats
held-sit zero cuid memory h ne = absurd (omega (arith, h))
held-sit (suc n) cuid memory h ne = ground (arith, held-free_seats n memory cuid ne)

pub found-first : (e : Entry) (l : List Entry) → find_room e.fixed.id (e ∷ l) ≡ some e
unfolding find_room
found-first e l = let same : (e.fixed.id == e.fixed.id) ≡ true = ground arith in rw same refl

found-other :
    (e : Entry) (l : List Entry) (j : ℕ) → j ≢ e.fixed.id → find_room j (e ∷ l) ≡ find_room j l
unfolding find_room
found-other e l j h = let other : (e.fixed.id == j) ≡ false = ground (arith, h) in rw other refl

-- The tests before the id.
pub create_game-tests :
    (fuel first : ℕ) (cfg : Config) (memory : List Card) (rcv : CreateGame) (c : Client)
    (reg : Registry)
    → c.roomid ≡ 0
    → check_request cfg rcv.request ≡ 0
    → create_game fuel first cfg memory rcv c reg
      ≡ opened_at cfg memory rcv c reg (get_room_id fuel first reg)
unfolding create_game
create_game-tests fuel first cfg memory rcv c reg out ok =
    let lobby : not (c.roomid == 0) ≡ false = ground (arith, out) in
    let good : not (check_request cfg rcv.request == 0) ≡ false = ground (arith, ok) in
    rw (lobby, good) refl

-- A client that is in no room and can pay, whose request is accepted while some id is free and at
-- most 1000 have expired, gets a room: it is in the table under an id that was free, waits for
-- players, has one seat for the client, and the client is in it; every other room stays as it is.
pub create_game-opens :
    (fuel first t : ℕ) (cfg : Config) (memory : List Card) (rcv : CreateGame) (c : Client)
    (reg : Registry)
    → c.cuid ≢ 0
    → c.roomid ≡ 0
    → check_request cfg rcv.request ≡ 0
    → can_pay (new_game cfg memory rcv c.cuid) c ≡ true
    → IsId first
    → All IsId reg.expired_ids
    → length reg.expired_ids ≤ 1000
    → IsId t
    → IsFree reg.rooms t
    → length reg.expired_ids + 899999 ≤ fuel
    → (e : Entry) × (next : Registry) × (create_game fuel first cfg memory rcv c reg
        ≡ some (next, record c { roomid = e.fixed.id }))
      × IsFree reg.rooms e.fixed.id
      × (find_room e.fixed.id next.rooms ≡ some e)
      × (e.room.status ≡ GameStatus.prepare)
      × (held c.cuid e.room.players ≡ 1)
      × ((j : ℕ) → j ≢ e.fixed.id → find_room j next.rooms ≡ find_room j reg.rooms)
unfolding new_game
create_game-opens fuel first t cfg memory rcv c reg someone out ok pays h a few k free w =
    let (r, got, fresh, id) = get_room_id-IsFree reg fuel first t h a few k free w in
    let two = (check_request-sizes cfg rcv.request ok).0 in
    let e : Entry = record { fixed = card_room rcv r.0; room = opened_room cfg memory rcv c } in
    (
      e,
      opened_table reg r.1 e.fixed e.room,
      create_game-tests fuel first cfg memory rcv c reg out ok
          ∙ (ap (opened_at cfg memory rcv c reg) got
              ∙ opened_at-eq cfg memory rcv c reg r.0 r.1 out two pays fresh),
      fresh,
      found-first e reg.rooms,
      refl,
      held-sit rcv.request.player_size c.cuid memory two someone,
      found-other e reg.rooms,
    )
