-- ===== src/Room/Open/Stranded.antt =====
-- A client that cannot pay opens a room.
use chess_games.Room.Open.Opens.{
  card_room, create_game-tests, first_seat, found-first, held-free_seats, opened_table,
}
use chess_games.Prelude.{
  All, Bool, List, ap, arith, false, length, not, refl, some, suc, true, zero, ℕ, ◌&&◌, ◌+◌, ◌==◌,
  ◌∙◌, ◌≡◌, ◌≢◌, ◌≤◌,
}
use chess_games.Deck.{Card}
use chess_games.Room.Create.{Config, check_request}
use chess_games.Room.Deal.{GameStatus, all_ready, may_start, try_start_round}
use chess_games.Room.Seats.{Client, can_pay, enter_room, take_seat}
use chess_games.Room.Game.{Env}
use chess_games.Room.Timer.{timer_exec, timer_exec_in}
use chess_games.Room.Registry.{Entry, Registry, add_room, find_room}
use chess_games.Room.Open.{CreateGame, create_game, free_seats, new_game, opened_at, put_room}
use chess_games.Room.OneSeat.{held}
use chess_games.Room.Registry.Ids.{IsFree, IsId, get_room_id-IsFree}
use chess_games.Room.Enough.{check_request-sizes}

unpaid :
    (cfg : Config) (memory : List Card) (rcv : CreateGame) (c : Client) (id : ℕ)
    → c.roomid ≡ 0
    → 2 ≤ rcv.request.player_size
    → can_pay (new_game cfg memory rcv c.cuid) c ≡ false
    → enter_room (card_room rcv id) (new_game cfg memory rcv c.cuid) c
      ≡ (false, new_game cfg memory rcv c.cuid, c)
unfolding enter_room take_seat new_game
unpaid cfg memory rcv c id out two poor =
    let lobby : not (c.roomid == 0) ≡ false = ground (arith, out) in
    let early : (not rcv.half_enter && false) ≡ false = ground arith in
    rw (lobby, early, first_seat rcv.request.player_size memory two, poor) refl

unpaid_at :
    (cfg : Config) (memory : List Card) (rcv : CreateGame) (c : Client) (reg : Registry) (id : ℕ)
    (ids : List ℕ)
    → c.roomid ≡ 0
    → 2 ≤ rcv.request.player_size
    → can_pay (new_game cfg memory rcv c.cuid) c ≡ false
    → IsFree reg.rooms id
    → opened_at cfg memory rcv c reg (some (id, ids))
      ≡ some (opened_table reg ids (card_room rcv id) (new_game cfg memory rcv c.cuid), c)
unfolding add_room put_room
unpaid_at cfg memory rcv c reg id ids out two poor free =
    let same : (id == id) ≡ true = ground arith in
    rw (free, unpaid cfg memory rcv c id out two poor, same) refl

no_start :
    (online : ℕ → Bool) (n : ℕ) (memory : List Card)
    → 2 ≤ n
    → may_start online GameStatus.prepare (free_seats n memory) ≡ false
unfolding may_start all_ready free_seats
no_start online zero memory h = absurd (omega (arith, h))
no_start online (suc n) memory h = refl

stays_empty :
    (env : Env) (cfg : Config) (memory : List Card) (rcv : CreateGame) (owner : ℕ)
    → 2 ≤ rcv.request.player_size
    → timer_exec env (new_game cfg memory rcv owner) ≡ some (new_game cfg memory rcv owner)
unfolding timer_exec timer_exec_in try_start_round new_game
stays_empty env cfg memory rcv owner two =
    rw (no_start env.online rcv.request.player_size memory two) refl

-- A client that cannot pay, whose request is otherwise accepted, is refused only when the table has
-- the new room already: the room stays in the table under its id, with nobody in it, and the timer
-- never ends it.
pub create_game-stranded :
    (fuel first t : ℕ) (cfg : Config) (memory : List Card) (rcv : CreateGame) (c : Client)
    (reg : Registry)
    → c.roomid ≡ 0
    → check_request cfg rcv.request ≡ 0
    → can_pay (new_game cfg memory rcv c.cuid) c ≡ false
    → IsId first
    → All IsId reg.expired_ids
    → length reg.expired_ids ≤ 1000
    → IsId t
    → IsFree reg.rooms t
    → length reg.expired_ids + 899999 ≤ fuel
    → (e : Entry) × (next : Registry) × (create_game fuel first cfg memory rcv c reg
        ≡ some (next, c))
      × (find_room e.fixed.id next.rooms ≡ some e)
      × ((cuid : ℕ) → cuid ≢ 0 → held cuid e.room.players ≡ 0)
      × ((env : Env) → timer_exec env e.room ≡ some e.room)
unfolding new_game
create_game-stranded fuel first t cfg memory rcv c reg out ok poor h a few k free w =
    let (r, got, fresh, id) = get_room_id-IsFree reg fuel first t h a few k free w in
    let two = (check_request-sizes cfg rcv.request ok).0 in
    let e : Entry = record { fixed = card_room rcv r.0; room = new_game cfg memory rcv c.cuid } in
    (
      e,
      opened_table reg r.1 e.fixed e.room,
      create_game-tests fuel first cfg memory rcv c reg out ok
          ∙ (ap (opened_at cfg memory rcv c reg) got
              ∙ unpaid_at cfg memory rcv c reg r.0 r.1 out two poor fresh),
      found-first e reg.rooms,
      held-free_seats rcv.request.player_size memory,
      λ env. stays_empty env cfg memory rcv c.cuid two,
    )
