-- ===== src/Net/Tests.antt =====
-- A packet through `parse`.
use chess_games.Net.Frames.{feed, feed-set_content}
use chess_games.Prelude.{List, [], arith, length, refl, ℕ, ◌++◌, ◌∷◌, ◌≡◌}
use chess_games.Net.Tcp.{set_content, write_size}

abbrev content : List ℕ
content = 7 ∷ 8 ∷ 9 ∷ []

set_content_test : set_content content ≡ 3 ∷ 0 ∷ 0 ∷ 0 ∷ 7 ∷ 8 ∷ 9 ∷ []
unfolding set_content write_size
set_content_test = refl

feed-set_content_example :
    feed [] ((write_size (length content) ++ 7 ∷ []) ∷ (8 ∷ []) ∷ [] ∷ (9 ∷ []) ∷ [])
    ≡ set_content content
feed-set_content_example =
    feed-set_content content (7 ∷ []) ((8 ∷ []) ∷ [] ∷ (9 ∷ []) ∷ []) (omega arith) refl
