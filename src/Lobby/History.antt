-- ===== src/Lobby/History.antt =====
-- The games that a client has played: `G13His` and `Client::afterLeaveRoom` of
-- server/processes/lobby/client.h and client.cpp, `proto_C_G13_ReqGameHistoryDetial` of
-- client_manager.cpp, and what they use of server/water/componet/datetime.cpp. Times are in seconds.
use chess_games.Prelude.{
  Bool, List, Option, [], if◌then◌else◌, leb, length, ltb, none, not, some, suc, take, ℕ, ◌%◌, ◌&&◌,
  ◌*◌, ◌++◌, ◌+◌, ◌-◌, ◌/◌, ◌==◌, ◌^◌, ◌∷◌,
}
use chess_games.Prelude.Int.{eqb_ℤ, ltb_ℤ, neg_ℤ, negsuc, pos, ℤ, ◌+ℤ◌, ◌-ℤ◌}

pub record Opponent : Type 0 where
  pub cuid : ℕ
  pub name : ℕ
  pub rank : ℤ

pub record Detail : Type 0 where
  pub roomid : ℕ
  pub rank : ℤ
  pub time : ℕ
  pub opps : List Opponent

pub record DayRank : Type 0 where
  pub rank : ℤ
  pub game : ℤ
  pub time : ℕ

pub record G13His : Type 0 where
  pub details : List Detail
  pub week_rank : ℤ
  pub week_game : ℤ
  pub today_rank : ℤ
  pub today_game : ℤ
  pub his_days : List DayRank

abbrev pub no_history : G13His
no_history = record {
  details = [];
  week_rank = pos 0;
  week_game = pos 0;
  today_rank = pos 0;
  today_game = pos 0;
  his_days = [];
}

-- `clock t` is what `localtime_r` shows of the seconds since midnight.
unfoldable pub begin_of_day : (ℕ → ℕ) → ℕ → ℕ
begin_of_day clock t = t - clock t

unfoldable pub in_same_day : (ℕ → ℕ) → ℕ → ℕ → Bool
in_same_day clock s t = begin_of_day clock s == begin_of_day clock t

unfoldable pub days_apart : (ℕ → ℕ) → ℕ → ℕ → ℤ
days_apart clock s t =
    if leb (begin_of_day clock s) (begin_of_day clock t)
    then pos ((begin_of_day clock t - begin_of_day clock s) / (24 * 3600))
    else neg_ℤ (pos ((begin_of_day clock s - begin_of_day clock t) / (24 * 3600)))

-- The loop over the days before: those of another day than `t` leave the week.
abbrev pub forget_days : (ℕ → ℕ) → ℕ → List DayRank → G13His → G13His
forget_days clock t [] h = record h { his_days = [] }
forget_days clock t (d ∷ l) h =
    let rest =
      forget_days clock t l
        (record h { week_rank = h.week_rank -ℤ d.rank; week_game = h.week_game -ℤ d.game }) in
    if eqb_ℤ (days_apart clock d.time t) (pos 0) then record h { his_days = d ∷ l } else rest

-- The first game of a day: what was today is a day before.
abbrev pub day_closed : ℕ → G13His → G13His
day_closed t h = record h {
  his_days = h.his_days ++ record { rank = h.today_rank; game = h.today_game; time = t } ∷ [];
  today_rank = pos 0;
  today_game = pos 0;
}

abbrev pub new_day : (ℕ → ℕ) → ℕ → G13His → List Detail → G13His
new_day clock t h [] = h
new_day clock t h (d ∷ l) =
    if not (in_same_day clock d.time t) then day_closed t (forget_days clock t h.his_days h) else h

abbrev pub pushed : Detail → List Detail → List Detail
pushed d l = if ltb 50 (length (d ∷ l)) then take (length (d ∷ l) - 1) (d ∷ l) else d ∷ l

abbrev pub counted : Detail → G13His → G13His
counted d h = record h {
  week_rank = h.week_rank +ℤ d.rank;
  week_game = h.week_game +ℤ pos 1;
  today_rank = h.today_rank +ℤ d.rank;
  today_game = h.today_game +ℤ pos 1;
  details = pushed d h.details;
}

-- `Client::afterLeaveRoom` with a game that was played; without one there is nothing to do here.
unfoldable pub after_leave_room : (ℕ → ℕ) → Option Detail → G13His → G13His
after_leave_room clock none h = h
after_leave_room clock (some d) h = counted d (new_day clock d.time h h.details)

-- The conversion of an `int32_t`.
abbrev pub to_uint32 : ℤ → ℕ
to_uint32 (pos n) = n % 2 ^ 32
to_uint32 (negsuc n) = 2 ^ 32 - 1 - n % 2 ^ 32

abbrev pub max_page : ℕ → ℕ
max_page total = if ltb 0 total then (total - 1) / 5 else 0

abbrev pub page_of : ℤ → ℕ → ℕ
page_of page total =
    to_uint32 (if ltb_ℤ (pos (max_page total)) page then pos (max_page total) else page)

abbrev pub first_of : ℕ → ℕ → ℕ
first_of page total =
    if not (5 * page % 2 ^ 32 == 0) && leb total (5 * page % 2 ^ 32)
    then 5 * ((page + (2 ^ 32 - 1)) % 2 ^ 32) % 2 ^ 32
    else 5 * page % 2 ^ 32

abbrev pub detail_loop : ℕ → ℕ → List Detail → List Detail
detail_loop first index [] = []
detail_loop first index (d ∷ l) =
    let rest = detail_loop first (suc index) l in
    if ltb index first
    then rest
    else if ltb ((first + 5) % 2 ^ 32) (suc index)
    then []
    else d ∷ rest

-- The items of the answer to `C_G13_ReqGameHistoryDetial`.
unfoldable pub req_game_history_detial : ℤ → List Detail → List Detail
req_game_history_detial page details =
    detail_loop (first_of (page_of page (length details)) (length details)) 0 details
