-- ===== src/Score/Round.antt =====
-- A round ends, and no points are made or lost in it.
use chess_games.Score.Total.{IsClosed, total}
use chess_games.Score.Loops.{settle-Keeps}
use chess_games.Prelude.{
  All, Bool, List, Option-cases, [], ap, arith, drop, if◌then◌else◌, inl, inr, length, none, refl,
  some, suc, take, true, zero, ℕ, ◌∷◌, ◌≡◌, ◌≢◌, ◌≤◌, ◌⊎◌,
}
use chess_games.Prelude.Int.{pos, ℤ, ◌+ℤ◌}
use chess_games.Deck.{BrandInfo, Card, IsCard, are_cards, is_card}
use chess_games.Deck.Ghost.{brand_info, ghost_info5, non_ghosts}
use chess_games.Score.Players.{Player, PlayerData, evaluate, evaluate_all, ranked}
use chess_games.Score.Pay.{calc_round, settle}

-- A player as the first loop leaves it.
abbrev pub IsFresh : PlayerData → Type 0
IsFresh d = (d.prize ≡ pos 0) × (d.losers ≡ [])

pub evaluate-IsFresh :
    (ma_pai : ℕ) (p : Player) (d : PlayerData) → evaluate ma_pai p ≡ some d → IsFresh d
unfolding evaluate
evaluate-IsFresh ma_pai p d e = ground arith

-- Some card of each row of five is no ghost. The cards whose rank is asked for, which are all thirteen
-- for a special brand, are none but cards, so that no assertion fails.
abbrev pub IsPlayable : Player → Type 0
IsPlayable p =
    (1 ≤ length (non_ghosts (take 5 (drop 3 p.cards))))
    × (1 ≤ length (non_ghosts (take 5 (drop 8 p.cards))))
    × All IsCard (if p.cards_spec_brand then p.cards else non_ghosts p.cards)

length-take-le {ℓ} : {A : Type ℓ} (n : ℕ) (xs : List A) → length (take n xs) ≤ n
length-take-le zero xs = omega arith
length-take-le (suc n) [] = omega arith
length-take-le (suc n) (x ∷ xs) = omega (arith, length-take-le n xs)

brand_info-ne-none :
    (c : List Card) → (1 ≤ length (non_ghosts c)) ⊎ (length c ≤ 3) → brand_info c ≢ none
unfolding brand_info ghost_info5
brand_info-ne-none c h = ground arith

brand_info-some :
    (c : List Card)
    → (1 ≤ length (non_ghosts c)) ⊎ (length c ≤ 3)
    → (i : BrandInfo) × (brand_info c ≡ some i)
brand_info-some c h = elim (Option-cases (brand_info c)) [
  | inl e ↦ absurd (brand_info-ne-none c h e)
  | inr found ↦ found
]

are_cards-true : (l : List Card) → All IsCard l → are_cards l ≡ true
unfolding are_cards is_card
are_cards-true [] h = refl
are_cards-true (c ∷ l) h = ground (arith, h.0, are_cards-true l h.1)

evaluate-some :
    (ma_pai : ℕ) (p : Player) → IsPlayable p → (d : PlayerData) × (evaluate ma_pai p ≡ some d)
unfolding evaluate
evaluate-some ma_pai p h =
    let (d0, e0) = brand_info-some (take 3 p.cards) (inr (length-take-le 3 p.cards)) in
    let (d1, e1) = brand_info-some (take 5 (drop 3 p.cards)) (inl h.0) in
    let (d2, e2) = brand_info-some (take 5 (drop 8 p.cards)) (inl h.1) in
    rw (are_cards-true (ranked p) h.2, e0, e1, e2) (_, refl)

evaluate_all-Keeps :
    (ma_pai n : ℕ) (ps : List Player)
    → All IsPlayable ps
    → (ds : List PlayerData) × (evaluate_all ma_pai ps ≡ some ds)
      × (total ds ≡ pos 0)
      × (length ds ≡ length ps)
      × IsClosed n ds
unfolding evaluate_all
evaluate_all-Keeps ma_pai n [] h = ([], refl, refl, refl, tt)
evaluate_all-Keeps ma_pai n (p ∷ ps) h =
    let (d, e) = evaluate-some ma_pai p h.0 in
    let (prize, losers) = evaluate-IsFresh ma_pai p d e in
    let (ds, es, sum, size, closed) = evaluate_all-Keeps ma_pai n ps h.1 in
    (d ∷ ds, rw (e, es), rw (prize, sum) (unfold ◌+ℤ◌ in refl), ap suc size, (rw losers tt, closed))

-- If every row of five has a card that is no ghost, and the hands have no ghosts where they are taken
-- for a special brand, no assertion fails, a round gives a result for each player, and what some win
-- the others lose.
pub calc_round-total :
    (players : List Player) (da_qiang ma_pai : ℕ) (shoot_add_point : ℤ) (enabled : Bool)
    → All IsPlayable players
    → (ds : List PlayerData) × (calc_round players da_qiang ma_pai shoot_add_point enabled
        ≡ some ds)
      × (length ds ≡ length players)
      × (total ds ≡ pos 0)
unfolding calc_round
calc_round-total players da_qiang ma_pai add enabled h =
    let (ds, e, sum, size, closed) = evaluate_all-Keeps ma_pai (length players) players h in
    let end =
      settle-Keeps da_qiang add enabled (length players) (pos 0) ds
        (record { sum = sum; size = size; closed = closed }) in
    (settle da_qiang add enabled ds, rw e, end.size, end.sum)
