-- ===== src/Room/GoldPlaces.antt =====
-- Why a client of a room of gold cannot change its room (water13_gold.cpp).
use chess_games.Room.Gold.{
  GoldRule, Places, change_room, create_gold_game, enters, match_loop, match_room, matched,
  rooms_of,
}
use chess_games.Room.Open.{entered, put_room}
use chess_games.Room.Registry.{Entry, Registry, find_room}
use chess_games.Score.Total.{some_inj}
use chess_games.Prelude.{
  Bool-cases, List, Option, [], ap, arith, false, if◌then◌else◌, inl, inr, none, not, refl, some,
  subst, sym, true, ℕ, ◌==◌, ◌∙◌, ◌∷◌, ◌≡◌, ◌≢◌,
}
use chess_games.Deck.{Card}
use chess_games.Room.Deal.{Room}
use chess_games.Room.Seats.{Client, RoomInfo, enter_room}

find_room-id : (l : List Entry) (id : ℕ) (e : Entry) → find_room id l ≡ some e → e.fixed.id ≡ id
unfolding find_room
find_room-id [] id e h = cc
find_room-id (d ∷ l) id e h = elim (Bool-cases (d.fixed.id == id)) [
  | inl f ↦
      let same : d.fixed.id ≡ id = ground (arith, f) in
      subst (λ (x : Entry). x.fixed.id ≡ id) (some_inj d e (rw f at h)) same
  | inr f ↦ find_room-id l id e (rw f at h)
]

put_room-same :
    (l : List Entry) (id : ℕ) (e : Entry) → find_room id l ≡ some e → put_room id e.room l ≡ l
unfolding find_room put_room
put_room-same [] id e h = refl
put_room-same (d ∷ l) id e h =
    elim (Bool-cases (d.fixed.id == id))
      as (λ c.
        (if d.fixed.id == id then record d { room = e.room } ∷ l else d ∷ put_room id e.room l)
        ≡ d ∷ l) [
          | inl f ↦
              rw f (
                ap (λ (x : Entry). record d { room = x.room } ∷ l) (sym (some_inj d e (rw f at h))))
          | inr f ↦ rw f (ap (λ k. d ∷ k) (put_room-same l id e (rw f at h)))
        ]

-- A client that is in a room enters that one only, which changes nothing.
enter_room-inside :
    (fixed : RoomInfo) (room : Room) (c : Client)
    → c.roomid ≢ 0
    → enter_room fixed room c ≡ (c.roomid == fixed.id, room, c)
unfolding enter_room
enter_room-inside fixed room c h =
    let inside : not (c.roomid == 0) ≡ true = ground (arith, h) in rw inside refl

entered-same :
    (reg : Registry) (c : Client) (id : ℕ) (o : Option Entry)
    → c.roomid ≢ 0
    → find_room id reg.rooms ≡ o
    → entered reg c o ≡ (reg, c)
entered-same reg c id none h f = refl
entered-same reg c id (some e) h f =
    let inside = enter_room-inside e.fixed e.room c h in
    let there = find_room-id reg.rooms id e f in
    rw inside (
      ap (λ l. (record reg { rooms = l }, c))
        (ap (λ i. put_room i e.room reg.rooms) there ∙ put_room-same reg.rooms id e f))

-- What the loop gives, if it finds a room.
data IsSame (reg : Registry) (c : Client) : Option (Registry × Client) → Type 0 where
  no_room : IsSame reg c none
  same_room : IsSame reg c (some (reg, c))

match_loop-IsSame :
    (ids : List ℕ) (reg : Registry) (c : Client)
    → c.roomid ≢ 0
    → IsSame reg c (match_loop ids reg c)
unfolding match_loop
match_loop-IsSame [] reg c h = no_room
match_loop-IsSame (id ∷ ids) reg c h = elim (Bool-cases (enters (find_room id reg.rooms) c)) [
  | inl f ↦ rw (f, entered-same reg c id (find_room id reg.rooms) h refl) same_room
  | inr f ↦ rw f (match_loop-IsSame ids reg c h)
]

matched-same :
    (p : Places) (c : Client) (m : Option (Registry × Client))
    → IsSame p.table c m
    → matched p m (some (p, c)) ≡ some (p, c)
matched-same p c none no_room = refl
matched-same p c _ same_room = refl

match_room-same :
    (fuel first : ℕ) (rules : List (ℕ × GoldRule)) (memory : List Card) (place : ℕ) (c : Client)
    (p : Places)
    → c.roomid ≢ 0
    → match_room fuel first rules memory place c p ≡ some (p, c)
unfolding match_room create_gold_game
match_room-same fuel first rules memory place c p h =
    let inside : not (c.roomid == 0) ≡ true = ground (arith, h) in
    rw inside (
      matched-same p c (match_loop (rooms_of place p.rooms_arr) p.table c)
        (match_loop-IsSame (rooms_of place p.rooms_arr) p.table c h))

-- The wish of a client in a room of gold to change its room changes nothing, whatever rooms the
-- place has.
pub change_room-same :
    (fuel first : ℕ) (rules : List (ℕ × GoldRule)) (memory : List Card) (place : ℕ) (c : Client)
    (p : Places) (e : Entry)
    → c.roomid ≢ 0
    → find_room c.roomid p.table.rooms ≡ some e
    → change_room fuel first rules memory place c p ≡ some (p, c)
unfolding change_room
change_room-same fuel first rules memory place c p e h f =
    let inside : (c.roomid == 0) ≡ false = ground (arith, h) in
    rw (inside, f) (match_room-same fuel first rules memory place c p h)
