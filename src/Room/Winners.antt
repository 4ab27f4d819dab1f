-- ===== src/Room/Winners.antt =====
-- The payment of the winners at the end of a game (`settleAll`, water13.cpp).
use chess_games.Room.Settle.{FinalCount, all_final_count, big_winners, sort_counts}
use chess_games.Prelude.{All, List, [], false, length, ℕ, ◌*◌, ◌+◌, ◌/◌, ◌∷◌, ◌≡◌}
use chess_games.Prelude.Int.{ltb_ℤ}
use chess_games.Room.Deal.{Bill, Room}

-- No count of the list has more points.
abbrev pub IsTop : List FinalCount → FinalCount → Type 0
IsTop l c = All (λ (d : FinalCount). ltb_ℤ c.rank d.rank ≡ false) l

abbrev pub total_price : List Bill → ℕ
total_price [] = 0
total_price (b ∷ l) = b.price + total_price l

-- Each count has as many points as those behind it.
IsSorted : List FinalCount → Type 0
IsSorted [] = Unit
IsSorted (c ∷ l) = IsTop l c × IsSorted l

-- The bill of a winner.
abbrev pub bill_of : ℕ → FinalCount → Bill
bill_of price c = record { cuid = c.cuid; price = price }

-- The players that pay for the game.
abbrev pub winners_of : Room → List FinalCount
winners_of room = big_winners (sort_counts (all_final_count room))

-- What each winner pays.
abbrev pub share_of : Room → ℕ
share_of room = room.player_price * room.attr.player_size / length (winners_of room)
