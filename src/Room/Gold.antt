-- ===== src/Room/Gold.antt =====
-- The rooms of gold (server/processes/lobby/water13_gold.cpp): places with rooms that are opened as
-- clients come. The numbers of a rule are not negative here. A room of a place is known by its id
-- in the table of rooms; `abortGame` is called of no room of gold that has a seat.
use chess_games.Room.Registry.{Entry, Registry, add_room, find_room, get_room_id}
use chess_games.Room.Open.{entered, free_seats}
use chess_games.Prelude.{
  Bool, List, Option, [], false, if◌then◌else◌, ltb, none, not, reverse, some, ℕ, ◌&&◌, ◌++◌, ◌==◌,
  ◌||◌, ◌∷◌,
}
use chess_games.Prelude.Int.{ltb_ℤ, ℤ}
use chess_games.Deck.{Card}
use chess_games.Room.Deal.{GameStatus, Room}
use chess_games.Room.Seats.{Client, enter_room}

-- `water13RoomRuleInfo`.
pub record GoldRule : Type 0 where
  pub min_money : ℤ
  pub max_money : ℤ
  pub play_type : ℕ
  pub da_qiang : ℕ
  pub player_size : ℕ
  pub ma_pai : ℕ
  pub with_ghost : Bool
  pub banker_multiple : ℕ

-- The table of rooms, and `roomsArr`.
pub record Places : Type 0 where
  pub table : Registry
  pub rooms_arr : List (ℕ × List ℕ)

unfoldable pub find_rule : ℕ → List (ℕ × GoldRule) → Option GoldRule
find_rule place [] = none
find_rule place ((k, r) ∷ m) = let rest = find_rule place m in if k == place then some r else rest

-- `roomsArr[placeId]`.
unfoldable pub rooms_of : ℕ → List (ℕ × List ℕ) → List ℕ
rooms_of place [] = []
rooms_of place ((k, ids) ∷ m) = let rest = rooms_of place m in if k == place then ids else rest

unfoldable pub push_room : ℕ → ℕ → List (ℕ × List ℕ) → List (ℕ × List ℕ)
push_room place id [] = (place, id ∷ []) ∷ []
push_room place id ((k, ids) ∷ m) =
    let rest = push_room place id m in
    if k == place then (k, ids ++ id ∷ []) ∷ m else (k, ids) ∷ rest

-- `attrCheckResult`.
unfoldable pub check_rule : GoldRule → ℕ
check_rule r =
    if not (r.play_type == 0) && not (r.play_type == 1)
    then 1
    else if ltb r.player_size 2 || ltb 8 r.player_size
    then 2
    else if not (r.da_qiang == 0) && not (r.da_qiang == 1)
    then 3
    else if ltb 52 r.ma_pai
    then 4
    else 0

-- The new game; it has three rounds, and nobody pays for it.
unfoldable pub new_gold_game : GoldRule → List Card → ℕ → Room
unfolding free_seats
new_gold_game r memory owner = record {
  attr = record {
    play_type = r.play_type;
    player_size = r.player_size;
    rounds = 3;
    payor = 3;
    da_qiang = r.da_qiang;
    ma_pai = r.ma_pai;
    with_ghost = r.with_ghost;
    suits = [];
  };
  expired = false;
  player_price = 0;
  banker_multiple = r.banker_multiple;
  owner_cuid = owner;
  status = GameStatus.prepare;
  round = 0;
  players = free_seats r.player_size memory;
  remain_brands = [];
  start_vote_time = 0;
  vote_sponsor_cuid = 0;
  quick_start_time = 0;
  sel_banker_time = 0;
  sel_multiple_time = 0;
  settle_time = 0;
  settle_all_time = 0;
  banker_cuid = 0;
  new_owner_id = 0;
  settle_data = [];
  bills = [];
  left = [];
}

-- The client enters the new room, which then belongs to the place.
abbrev pub gold_entered : ℕ → Places → Client → Entry → Places × Client
gold_entered place p c e =
    let r = entered p.table c (some e) in
    if (enter_room e.fixed e.room c).0
    then (record { table = r.0; rooms_arr = push_room place e.fixed.id p.rooms_arr }, r.1)
    else (record p { table = r.0 }, r.1)

abbrev pub gold_opened_at :
    GoldRule → List Card → ℕ → Client → Places → Option (ℕ × List ℕ) → Option (Places × Client)
gold_opened_at rule memory place c p none = none
gold_opened_at rule memory place c p (some (id, ids)) =
    let e : Entry = record {
      fixed = record { id = id; is_card_mode = false; half_enter = false };
      room = new_gold_game rule memory c.cuid;
    } in
    let r = add_room e (record p.table { expired_ids = ids }) in
    if r.0
    then some (gold_entered place (record p { table = r.1 }) c e)
    else some (record p { table = r.1 }, c)

abbrev pub by_rule :
    ℕ → ℕ → List Card → ℕ → Client → Places → Option GoldRule → Option (Places × Client)
by_rule fuel first memory place c p none = some (p, c)
by_rule fuel first memory place c p (some rule) =
    if not (check_rule rule == 0)
    then some (p, c)
    else gold_opened_at rule memory place c p (get_room_id fuel first p.table)

-- `createGame`; none is a loop for the id that has not ended within the fuel.
unfoldable pub create_gold_game :
    ℕ → ℕ → List (ℕ × GoldRule) → List Card → ℕ → Client → Places → Option (Places × Client)
create_gold_game fuel first rules memory place c p =
    if not (c.roomid == 0)
    then some (p, c)
    else by_rule fuel first memory place c p (find_rule place rules)

-- Whether the client enters the room under the id.
unfoldable pub enters : Option Entry → Client → Bool
enters none c = false
enters (some e) c = (enter_room e.fixed e.room c).0

-- The loop of `matchRoom`; none is no room.
unfoldable pub match_loop : List ℕ → Registry → Client → Option (Registry × Client)
unfolding enters
match_loop [] reg c = none
match_loop (id ∷ ids) reg c =
    let rest = match_loop ids reg c in
    let e = find_room id reg.rooms in if enters e c then some (entered reg c e) else rest

abbrev pub matched :
    Places → Option (Registry × Client) → Option (Places × Client) → Option (Places × Client)
matched p none o = o
matched p (some (reg, c)) o = some (record p { table = reg }, c)

unfoldable pub match_room :
    ℕ → ℕ → List (ℕ × GoldRule) → List Card → ℕ → Client → Places → Option (Places × Client)
unfolding match_loop create_gold_game
match_room fuel first rules memory place c p =
    matched p (match_loop (rooms_of place p.rooms_arr) p.table c)
      (create_gold_game fuel first rules memory place c p)

-- `proto_C_G13_EnterGoldPlace`; `money` is `money1()`.
abbrev pub may_enter : ℤ → Option GoldRule → Bool
may_enter money none = false
may_enter money (some r) = ltb_ℤ r.min_money money && not (ltb_ℤ r.max_money money)

unfoldable pub enter_gold_place :
    ℕ → ℕ → List (ℕ × GoldRule) → List Card → ℤ → ℕ → Client → Places → Option (Places × Client)
enter_gold_place fuel first rules memory money place c p =
    if not (c.roomid == 0)
    then some (p, c)
    else if not (may_enter money (find_rule place rules))
    then some (p, c)
    else match_room fuel first rules memory place c p

-- `proto_C_G13Gold_ChangeRoom`, where the client's room belongs to `place`. A client whose room is
-- gone is let go.
unfoldable pub change_room :
    ℕ → ℕ → List (ℕ × GoldRule) → List Card → ℕ → Client → Places → Option (Places × Client)
change_room fuel first rules memory place c p =
    if c.roomid == 0 then some (p, c) else elim (find_room c.roomid p.table.rooms) [
      | none ↦ some (p, record c { roomid = 0 })
      | some e ↦ match_room fuel first rules memory place c p
    ]

-- The loop of `proto_C_G13Gold_QuickStart`, over the rules from the last one; the place to go to.
unfoldable pub quick_place : ℤ → List (ℕ × GoldRule) → Option ℕ
quick_place money [] = none
quick_place money ((k, r) ∷ m) =
    let rest = quick_place money m in
    if ltb_ℤ r.min_money money && ltb_ℤ money r.max_money then some k else rest

abbrev pub to_place :
    ℕ → ℕ → List (ℕ × GoldRule) → List Card → Client → Places → Option ℕ → Option (Places × Client)
to_place fuel first rules memory c p none = some (p, c)
to_place fuel first rules memory c p (some place) = match_room fuel first rules memory place c p

-- `proto_C_G13Gold_QuickStart`.
unfoldable pub gold_quick_start :
    ℕ → ℕ → List (ℕ × GoldRule) → List Card → ℤ → Client → Places → Option (Places × Client)
unfolding quick_place
gold_quick_start fuel first rules memory money c p =
    if not (c.roomid == 0)
    then some (p, c)
    else to_place fuel first rules memory c p (quick_place money (reverse rules))
