-- ===== src/Room/OneSeat.antt =====
-- A client has one seat in the room that it is in, and none in any other.
use chess_games.Prelude.{
  Bool, Bool-cases, List, Option, Option-cases, [], arith, false, if◌then◌else◌, inl, inr, ltb, not,
  refl, some, suc, sym, true, ℕ, ◌&&◌, ◌+◌, ◌-◌, ◌==◌, ◌||◌, ◌∙◌, ◌∷◌, ◌≡◌, ◌≢◌,
}
use chess_games.Room.Deal.{PlayerStatus, Room, Seat}
use chess_games.Score.Total.{some_inj}
use chess_games.Room.Seats.{
  Client, RoomInfo, can_pay, clear_seat, empty_seat_index, enter_room, is_prepare, is_seated,
  remove_player, sit, take_seat,
}

-- The number of seats of a client.
abbrev pub held : ℕ → List Seat → ℕ
held cuid [] = 0
held cuid (s ∷ l) = (if s.cuid == cuid then 1 else 0) + held cuid l

abbrev pub SeatedOnce : RoomInfo → Room → Client → Type 0
SeatedOnce fixed room c = held c.cuid room.players ≡ (if c.roomid == fixed.id then 1 else 0)

held-sit :
    (l : List Seat) (i cuid d : ℕ) (st : PlayerStatus)
    → cuid ≢ 0
    → d ≢ 0
    → empty_seat_index l ≡ some i
    → held d (sit i cuid st l) ≡ (if cuid == d then 1 else 0) + held d l
unfolding empty_seat_index sit
held-sit [] i cuid d st h k e = cc
held-sit (s ∷ l) i cuid d st h k e = elim (Bool-cases (s.cuid == 0)) [
  | inl f ↦ let first : i ≡ 0 = sym (some_inj 0 i (rw f at e)) in rw first (ground arith)
  | inr f ↦ elim (Option-cases (empty_seat_index l)) [
    | inl g ↦ let bad : Option.none ≡ some i = rw (f, g) at e in cc
    | inr (j, g) ↦
        let next : j + 1 ≡ i = some_inj (j + 1) i (rw (f, g) at e) in
        let after : i ≡ suc j = omega arith in
        rw after (omega (arith, held-sit l j cuid d st h k g))
  ]
]

held-clear : (l : List Seat) (cuid : ℕ) → cuid ≢ 0 → held cuid (clear_seat cuid l) ≡ held cuid l - 1
unfolding clear_seat
held-clear [] cuid h = omega arith
held-clear (s ∷ l) cuid h = ground (arith, held-clear l cuid h)

held-clear-other :
    (l : List Seat) (cuid d : ℕ) → d ≢ 0 → d ≢ cuid → held d (clear_seat cuid l) ≡ held d l
unfolding clear_seat
held-clear-other [] cuid d k n = refl
held-clear-other (s ∷ l) cuid d k n = ground (arith, held-clear-other l cuid d k n)

is_seated-held : (l : List Seat) (cuid : ℕ) → is_seated cuid l ≡ ltb 0 (held cuid l)
unfolding is_seated
is_seated-held [] cuid = refl
is_seated-held (s ∷ l) cuid = ground (arith, is_seated-held l cuid)

-- What a seating answers: a client that is seated has one seat more, and nobody else has.
Seating : RoomInfo → Room → Client → ℕ → Bool × Room × Client → Type 0
Seating fixed room c d r =
    SeatedOnce fixed r.1 r.2
    × (held d r.1.players ≡ held d room.players)
    × (r.0 ≡ (r.2.roomid == fixed.id))

module _ (fixed : RoomInfo) (room : Room) (c : Client) (d : ℕ) (some_client : c.cuid ≢ 0)
    (other_client : d ≢ 0) (differ : d ≢ c.cuid) (some_room : fixed.id ≢ 0)
    (once : SeatedOnce fixed room c) where
  refused : c.roomid ≡ 0 → Seating fixed room c d (false, room, c)
  unfolding Seating
  refused z = (once, refl, ground arith)

  seated :
      (i : ℕ) (st : PlayerStatus)
      → c.roomid ≡ 0
      → empty_seat_index room.players ≡ some i
      → Seating fixed room c d (
        true,
        record room { players = sit i c.cuid st room.players },
        record c { roomid = fixed.id },
      )
  unfolding Seating
  seated i st z e = (
    ground (arith, held-sit room.players i c.cuid c.cuid st some_client some_client e),
    ground (arith, held-sit room.players i c.cuid d st some_client other_client e),
    ground arith,
  )

  take_seat-Seating :
      (o : Option ℕ)
      → c.roomid ≡ 0
      → empty_seat_index room.players ≡ o
      → Seating fixed room c d (take_seat fixed room c o)
  unfolding take_seat
  take_seat-Seating Option.none z e = refused z
  take_seat-Seating (some i) z e = elim (Bool-cases (fixed.is_card_mode && not (can_pay room c))) [
    | inl p ↦ rw p (refused z)
    | inr p ↦ rw p (seated i _ z e)
  ]

  -- A client that has one seat in the room it is in, and none elsewhere, asks to enter: after the
  -- answer that still holds, no other client's seat has changed, and the answer tells whether the
  -- client is in the room.
  pub enter_room-SeatedOnce :
      SeatedOnce fixed (enter_room fixed room c).1 (enter_room fixed room c).2
      × (held d (enter_room fixed room c).1.players ≡ held d room.players)
      × ((enter_room fixed room c).0 ≡ ((enter_room fixed room c).2.roomid == fixed.id))
  unfolding enter_room Seating
  enter_room-SeatedOnce = elim (Bool-cases (c.roomid == 0)) [
    | inr e ↦ rw e (once, refl, refl)
    | inl e ↦
        let z : c.roomid ≡ 0 = ground arith in
        elim (Bool-cases (
          not (fixed.is_card_mode && fixed.half_enter)
          && (not (is_prepare room.status) || not (room.round == 0)))) [
            | inl f ↦ rw (e, f) (refused z)
            | inr f ↦ rw (e, f) (take_seat-Seating (empty_seat_index room.players) z refl)
          ]
  ]

  -- A client of the room leaves it: it has no seat left and knows it, and no other client's seat
  -- has changed.
  pub remove_player-SeatedOnce :
      SeatedOnce fixed (remove_player room c).0 (remove_player room c).1
      × (held c.cuid (remove_player room c).0.players ≡ 0)
      × (held d (remove_player room c).0.players ≡ held d room.players)
  unfolding remove_player
  remove_player-SeatedOnce = elim (Bool-cases (is_seated c.cuid room.players)) [
    | inl e ↦
        let some_seat : ltb 0 (held c.cuid room.players) ≡ true =
          sym (is_seated-held room.players c.cuid) ∙ e in
        let none_left : held c.cuid (clear_seat c.cuid room.players) ≡ 0 =
          ground (arith, held-clear room.players c.cuid some_client) in
        rw e (ground arith, none_left, held-clear-other room.players c.cuid d other_client differ)
    | inr e ↦
        let no_seat : ltb 0 (held c.cuid room.players) ≡ false =
          sym (is_seated-held room.players c.cuid) ∙ e in
        rw e (once, ground arith, refl)
  ]
