-- ===== src/Lobby/ClientTests.antt =====
-- One client at work: its history, what is saved of it, and its money.
use chess_games.Prelude.{[], arith, false, length, refl, some, sym, ℕ, ◌%◌, ◌+◌, ◌∷◌, ◌≡◌}
use chess_games.Prelude.Int.{pos, ℤ, ◌+ℤ◌}
use chess_games.FastMap.{added, find, no_items}
use chess_games.Lobby.History.{Detail, G13His, after_leave_room, begin_of_day, max_page}
use chess_games.Lobby.Clients.{Client, ClientManager, new_client, write}
use chess_games.Lobby.Money.{GoldShopInfo, enough_money, exchange}
use chess_games.Lobby.Saved.{ClientData, load_client, serialize, to_data}
use chess_games.Lobby.Purchases.{Exchanged, exchange-Exchanged}
use chess_games.Lobby.Week.{
  IsCounted, after_leave_room-IsCounted, after_leave_room-two_days, sum_game, sum_rank,
}
use chess_games.Lobby.Pages.{pages, pages-whole}
use chess_games.Lobby.Restored.{load_client-serialize, saved_part}
use chess_games.Lobby.Login.{loaded}

-- The clock of Greenwich.
abbrev utc : ℕ → ℕ
utc t = t % 86400

abbrev game_at : ℕ → ℤ → Detail
game_at t rank = record { roomid = 100001; rank = rank; time = t; opps = [] }

-- A week of three days, each with a game.
abbrev three_days : G13His
three_days = record {
  details = game_at 600000 (pos 5) ∷ game_at 500000 (pos 3) ∷ game_at 400000 (pos 7) ∷ [];
  week_rank = pos 15;
  week_game = pos 3;
  today_rank = pos 5;
  today_game = pos 1;
  his_days =
      record { rank = pos 7; game = pos 1; time = 500000 }
      ∷ record { rank = pos 3; game = pos 1; time = 600000 }
      ∷ [];
}

three_days-IsCounted : IsCounted three_days
unfolding sum_rank sum_game ◌+ℤ◌
three_days-IsCounted = record { rank = refl; game = refl; few = omega arith }

after_leave_room-IsCounted_example :
    IsCounted (after_leave_room utc (some (game_at 700000 (pos 2))) three_days)
after_leave_room-IsCounted_example =
    after_leave_room-IsCounted utc (some (game_at 700000 (pos 2))) three_days three_days-IsCounted

after_leave_room-two_days_example :
    ((after_leave_room utc (some (game_at 700000 (pos 2))) three_days).his_days
      ≡ record { rank = pos 5; game = pos 1; time = 700000 } ∷ [])
    × ((after_leave_room utc (some (game_at 700000 (pos 2))) three_days).week_rank ≡ pos 5 +ℤ pos 2)
unfolding begin_of_day
after_leave_room-two_days_example =
    after_leave_room-two_days utc (game_at 700000 (pos 2)) three_days (game_at 600000 (pos 5))
      (game_at 500000 (pos 3) ∷ game_at 400000 (pos 7) ∷ []) three_days-IsCounted refl (omega arith)
      (omega arith, (omega arith, tt))

pages-whole_example :
    pages (max_page (length three_days.details) + 1) three_days.details ≡ three_days.details
pages-whole_example = pages-whole three_days.details (omega arith)

abbrev bob : Client
bob = record new_client {
  ccid = 12;
  cuid = 206109;
  openid = 22;
  name = 32;
  ipstr = 62;
  g13his = three_days;
  last_share_time = 650000;
}

-- The message itself stands for the bytes.
load_client-serialize_example :
    load_client {Bin = ClientData}
      (λ x. some x)
      (λ x. false)
      (serialize (λ x. some x) (to_data new_client) bob)
    ≡ loaded (saved_part bob)
load_client-serialize_example =
    load_client-serialize (λ x. some x) (λ x. some x) (λ x bin e. sym e) (λ x. false)
      (to_data new_client) (to_data bob) bob refl refl

abbrev bobs : ClientManager
bobs = record {
  store = write 0 bob (λ p. new_client);
  fresh = 1;
  openid2clients = added 22 0 no_items;
  cuid2clients = added 206109 0 no_items;
  ccid2clients = added 12 0 no_items;
  unique_id_counter = 206109;
}

abbrev small_bag : GoldShopInfo
small_bag = record { diamond = pos 60; money = pos 6000 }

exchange-Exchanged_example : Exchanged small_bag bobs 0 (exchange (some small_bag) 12 bobs)
unfolding find
exchange-Exchanged_example = exchange-Exchanged small_bag 12 bobs 0 refl (omega arith) (omega arith)

-- 188 diamonds are not enough for what costs 188.
just_the_price : (exchange (some (record { diamond = pos 188; money = pos 1 })) 12 bobs).0 ≡ some 0
unfolding exchange find enough_money
just_the_price = refl
