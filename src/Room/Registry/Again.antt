-- ===== src/Room/Registry/Again.antt =====
-- An id that comes back while it has a room.
use chess_games.Prelude.{
  List, arith, false, length, ltb, none, refl, some, suc, true, ℕ, ◌++◌, ◌<◌, ◌==◌, ◌∷◌, ◌≡◌, ◌≢◌,
  ◌≤◌,
}
use chess_games.Room.Registry.{
  Entry, Registry, add_room, find_room, get_room_id, get_room_id_in, id_loop,
}

-- Say the random id is one that has expired. It is handed out and stays in the list of expired ids,
-- and its room is added. When more than 1000 ids have expired, it is handed out again, and a room
-- cannot be added under it.
pub get_room_id-again :
    (reg later : Registry) (e d : Entry) (fuel more_fuel first id : ℕ) (ids more : List ℕ)
    → id ≢ 0
    → reg.expired_ids ≡ id ∷ ids
    → length (id ∷ ids) ≤ 1000
    → find_room id reg.rooms ≡ none
    → e.fixed.id ≡ id
    → d.fixed.id ≡ id
    → find_room id later.rooms ≡ some e
    → later.expired_ids ≡ id ∷ (ids ++ more)
    → 1000 < length (id ∷ (ids ++ more))
    → (get_room_id (suc fuel) id reg ≡ some (id, id ∷ ids))
      × ((add_room e (record reg { expired_ids = id ∷ ids })).0 ≡ true)
      × (get_room_id more_fuel first later ≡ some (id, ids ++ more))
      × (add_room d later ≡ (false, later))
unfolding get_room_id get_room_id_in id_loop add_room
get_room_id-again reg later e d fuel more_fuel first id ids more some_id gone few free this that
      there grown many =
    let short : ltb 1000 (length (id ∷ ids)) ≡ false = ground (arith, few) in
    let long : ltb 1000 (length (id ∷ (ids ++ more))) ≡ true = ground (arith, many) in
    let nonzero : (id == 0) ≡ false = ground (arith, some_id) in
    (
      rw (gone, short, nonzero, free) refl,
      rw (this, free) refl,
      rw (grown, long) refl,
      rw (that, there) refl,
    )
