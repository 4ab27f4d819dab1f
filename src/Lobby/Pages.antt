-- ===== src/Lobby/Pages.antt =====
-- The pages of a client's history.
use chess_games.Prelude.{
  List, [], ap, arith, drop, length, refl, suc, sym, take, zero, ℕ, ◌*◌, ◌++◌, ◌+◌, ◌∙◌, ◌∷◌, ◌≡◌,
  ◌≤◌,
}
use chess_games.Prelude.Int.{pos}
use chess_games.Lobby.History.{
  Detail, detail_loop, first_of, max_page, page_of, req_game_history_detial,
}

module _ (first : ℕ) (low : first ≤ 50) where
  -- `k` places of the page are left.
  detail_loop-show :
      (l : List Detail) (i k : ℕ) → i + k ≡ first + 5 → k ≤ 5 → detail_loop first i l ≡ take k l
  detail_loop-show [] i zero e h = refl
  detail_loop-show [] i (suc k) e h = refl
  detail_loop-show (d ∷ l) i zero e h = ground (arith, low, e)
  detail_loop-show (d ∷ l) i (suc k) e h =
      ground (arith, low, e, detail_loop-show l (suc i) k (omega (arith, e)) (omega (arith, h)))

  -- The page begins after `j` games.
  detail_loop-skip :
      (l : List Detail) (i j : ℕ) → i + j ≡ first → detail_loop first i l ≡ take 5 (drop j l)
  detail_loop-skip l i zero e = detail_loop-show l i 5 (omega (arith, e)) (omega arith)
  detail_loop-skip [] i (suc j) e = refl
  detail_loop-skip (d ∷ l) i (suc j) e =
      ground (arith, e, detail_loop-skip l (suc i) j (omega (arith, e)))

first_of-page :
    (n total : ℕ) → total ≤ 50 → n ≤ max_page total → first_of (page_of (pos n) total) total ≡ 5 * n
first_of-page n total few low = ground (arith, few, low)

page-take :
    (n : ℕ) (l : List Detail)
    → length l ≤ 50
    → n ≤ max_page (length l)
    → req_game_history_detial (pos n) l ≡ take 5 (drop (5 * n) l)
unfolding req_game_history_detial
page-take n l few low =
    ap (λ f. detail_loop f 0 l) (first_of-page n (length l) few low)
    ∙ detail_loop-skip (5 * n) (ground (arith, few, low)) l 0 (5 * n) (omega arith)

take-empty : {A : Type 0} (n : ℕ) → take {A = A} n [] ≡ []
take-empty zero = refl
take-empty (suc n) = refl

suc_add : (a b : ℕ) → suc (a + b) ≡ suc a + b
suc_add a b = omega arith

take-append-take :
    {A : Type 0} (a b : ℕ) (l : List A) → take a l ++ take b (drop a l) ≡ take (a + b) l
take-append-take zero b l = ground arith
take-append-take (suc a) b [] = take-empty b ∙ sym (take-empty (suc a + b))
take-append-take (suc a) b (x ∷ l) =
    ap (λ r. x ∷ r) (take-append-take a b l) ∙ ap (λ n. take n (x ∷ l)) (suc_add a b)

take-long : {A : Type 0} (n : ℕ) (l : List A) → length l ≤ n → take n l ≡ l
take-long zero [] h = refl
take-long zero (x ∷ l) h = absurd (omega (arith, h))
take-long (suc n) [] h = refl
take-long (suc n) (x ∷ l) h = ap (λ r. x ∷ r) (take-long n l (omega (arith, h)))

-- The answers for the first `n` pages, one after the other.
pub pages : ℕ → List Detail → List Detail
pages zero l = []
pages (suc n) l = pages n l ++ req_game_history_detial (pos n) l

pages-take :
    (n : ℕ) (l : List Detail)
    → length l ≤ 50
    → n ≤ max_page (length l) + 1
    → pages n l ≡ take (5 * n) l
unfolding pages
pages-take zero l few low = refl
pages-take (suc n) l few low =
    ap (λ r. r ++ req_game_history_detial (pos n) l) (pages-take n l few (omega (arith, low)))
    ∙ ap (λ r. take (5 * n) l ++ r) (page-take n l few (omega (arith, low)))
    ∙ take-append-take (5 * n) 5 l
    ∙ ap (λ k. take k l) (omega arith)

-- The pages of a history of 50 games at most, put together, are the history.
pub pages-whole : (l : List Detail) → length l ≤ 50 → pages (max_page (length l) + 1) l ≡ l
unfolding pages
pages-whole l few =
    pages-take (max_page (length l) + 1) l few (omega arith)
    ∙ take-long (5 * (max_page (length l) + 1)) l (ground arith)
