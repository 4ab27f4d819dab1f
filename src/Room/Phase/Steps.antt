-- ===== src/Room/Phase/Steps.antt =====
-- The choices of the banker's game and the renewal of a room are one step in its life.
use chess_games.Prelude.{
  Bool, Bool-cases, List, Option, ap, inl, inr, length, none, not, refl, some, sym, ℕ, ◌&&◌, ◌+◌,
  ◌==◌, ◌∙◌, ◌≡◌,
}
use chess_games.Room.Deal.{
  GameStatus, Room, Seat, check_all_select_multiple, chosen, fill_loop, filled_room,
  is_sel_multiple, is_witness, valid_players,
}
use chess_games.Room.Phase.{
  Move, Moves, Phase, choose_banker, crash, deal_rest, moved, phase, renew, stay,
}
use chess_games.Room.Phase.Ballots.{
  is_sel_banker-eq, is_sel_multiple-eq, is_settle_all-eq, remove_cuid-Moves,
}
use chess_games.Prelude.Int.{eqb_ℤ, ltb_ℤ, pos, ℤ}
use chess_games.Room.Seats.{is_seated}
use chess_games.Room.Game.{Env, update_info}
use chess_games.Room.Chips.{
  check_all_chip_in_point, chip_in_point, chipped, is_sel_banker, max_chip, select_multiple,
  set_chip_in, valid_seats,
}
use chess_games.Room.Renew.{
  check_all_renew_reply, is_settle_all, renew_reply, renew_room, replied, reply_half_enter_of,
  set_renew_reply,
}

pub check_chip-Moves :
    (env : Env) (r : Room) → Move (phase r) (phase (check_all_chip_in_point env r))
unfolding check_all_chip_in_point
check_chip-Moves env r = elim (Bool-cases (not (is_sel_banker r.status))) [
  | inl e ↦ rw e (stay refl)
  | inr e ↦
      elim (Bool-cases (not (chipped (valid_seats r.players) == length (valid_seats r.players)))) [
        | inl f ↦ rw (e, f) (stay refl)
        | inr f ↦ elim (Bool-cases (eqb_ℤ (max_chip (pos 0) 0 (valid_seats r.players)).0 (pos 0))) [
          | inl g ↦ rw (e, f, g) (stay refl)
          | inr g ↦ rw (e, f, g) (choose_banker (is_sel_banker-eq r.status e) refl)
        ]
      ]
]

pub chip_in_point-Moves :
    (env : Env) (cuid : ℕ) (point : ℤ) (room : Room)
    → Moves room (chip_in_point env cuid point room)
unfolding chip_in_point
chip_in_point-Moves env cuid point room = elim (Bool-cases (not (is_sel_banker room.status))) [
  | inl e ↦ rw e (moved (stay refl))
  | inr e ↦ elim (Bool-cases (not (is_seated cuid room.players))) [
    | inl f ↦ rw (e, f) (moved (stay refl))
    | inr f ↦ elim (Bool-cases (ltb_ℤ (pos room.banker_multiple) point)) [
      | inl g ↦ rw (e, f, g) (moved (stay refl))
      | inr g ↦
          rw (e, f, g)
            (moved (
              check_chip-Moves env
                (record room { players = update_info cuid (set_chip_in point) room.players })))
    ]
  ]
]

pub check_multiple-Moves : (p r : Room) → phase r ≡ phase p → Moves p (check_all_select_multiple r)
unfolding check_all_select_multiple
check_multiple-Moves p r a = elim (Bool-cases (not (is_sel_multiple r.status))) [
  | inl e ↦ rw e (moved (stay a))
  | inr e ↦ elim (Bool-cases (chosen r.players + 1 == valid_players r.players)) [
    | inl f ↦
        rw (e, f) (filled (is_sel_multiple-eq r.status e) (fill_loop r.remain_brands r.players))
    | inr f ↦ rw (e, f) (moved (stay a))
  ]
]
  where
    filled :
        r.status ≡ GameStatus.sel_multiple → (o : Option (List Seat)) → Moves p (filled_room r o)
    filled s none = crash
    filled s (some l) = moved (deal_rest (sym (ap (λ (q : Phase). q.status) a) ∙ s) (cc))

pub select_multiple-Moves :
    (cuid : ℕ) (point : ℤ) (room : Room) → Moves room (select_multiple cuid point room)
unfolding select_multiple
select_multiple-Moves cuid point room = elim (Bool-cases (not (is_sel_multiple room.status))) [
  | inl e ↦ rw e (moved (stay refl))
  | inr e ↦ elim (Bool-cases (not (is_seated cuid room.players))) [
    | inl f ↦ rw (e, f) (moved (stay refl))
    | inr f ↦ elim (Bool-cases (ltb_ℤ (pos room.banker_multiple) point)) [
      | inl g ↦ rw (e, f, g) (moved (stay refl))
      | inr g ↦ rw (e, f, g) (check_multiple-Moves room _ refl)
    ]
  ]
]

pub reply_half_enter-Moves :
    (env : Env) (cuid : ℕ) (reply : Bool) (room : Room) (o : Option Seat)
    → Move (phase room) (phase (reply_half_enter_of env cuid reply room o))
unfolding reply_half_enter_of
reply_half_enter-Moves env cuid reply room none = stay refl
reply_half_enter-Moves env cuid reply room (some s) =
    elim (Bool-cases (not (is_witness s.status))) [
      | inl e ↦ rw e (stay refl)
      | inr e ↦ elim (Bool-cases reply) [
        | inl f ↦ rw (e, f) (stay refl)
        | inr f ↦ elim (Bool-cases (env.online s.cuid)) [
          | inl g ↦ rw (e, f, g) (stay refl)
          | inr g ↦ rw (e, f, g) (stay refl)
        ]
      ]
    ]

pub renew_room-Moves : (cuid payor : ℕ) (room : Room) → Moves room (renew_room cuid payor room)
unfolding renew_room
renew_room-Moves cuid payor room = elim (Bool-cases (not (is_seated cuid room.players))) [
  | inl e ↦ rw e (moved (stay refl))
  | inr e ↦ elim (Bool-cases (not (room.new_owner_id == 0))) [
    | inl f ↦ rw (e, f) (moved (stay refl))
    | inr f ↦ elim (Bool-cases (not (is_settle_all room.status))) [
      | inl g ↦ rw (e, f, g) (moved (stay refl))
      | inr g ↦ elim (Bool-cases (not (payor == 1) && not (payor == 0))) [
        | inl h ↦ rw (e, f, g, h) (moved (stay refl))
        | inr h ↦ rw (e, f, g, h) (moved (stay refl))
      ]
    ]
  ]
]

check_renew-Moves : (r : Room) → Move (phase r) (phase (check_all_renew_reply r))
unfolding check_all_renew_reply
check_renew-Moves r = elim (Bool-cases (not (is_settle_all r.status))) [
  | inl e ↦ rw e (stay refl)
  | inr e ↦ elim (Bool-cases (replied r.players + 1 == valid_players r.players)) [
    | inl f ↦ rw (e, f) (renew (is_settle_all-eq r.status e) refl)
    | inr f ↦ rw (e, f) (stay refl)
  ]
]

pub renew_reply-Moves :
    (cuid : ℕ) (reply : Bool) (room : Room) → Moves room (renew_reply cuid reply room)
unfolding renew_reply
renew_reply-Moves cuid reply room = elim (Bool-cases (not (is_settle_all room.status))) [
  | inl e ↦ rw e (moved (stay refl))
  | inr e ↦ elim (Bool-cases (not reply)) [
    | inl f ↦ rw (e, f) (moved (remove_cuid-Moves cuid room))
    | inr f ↦ elim (Bool-cases (not (is_seated cuid room.players))) [
      | inl g ↦ rw (e, f, g) (moved (stay refl))
      | inr g ↦
          rw (e, f, g)
            (moved (
              check_renew-Moves
                (record room { players = update_info cuid set_renew_reply room.players })))
    ]
  ]
]
