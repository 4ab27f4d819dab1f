-- ===== src/Deck/Five/Correct.antt =====
-- `brand5` gives the brand that a hand means.
use chess_games.Prelude.{
  List, [], arith, get_or, length, map, refl, subst, true, ◌∙◌, ◌∷◌, ◌≡◌, ◌≤◌,
}
use chess_games.Deck.{Card, rank, suit}
use chess_games.Deck.Sort.{SortedBy, length-sort, sort, sort-SortedBy}
use chess_games.Deck.Loops.{flush_loop}
use chess_games.Deck.Five.{brand5, brand5_ranked}
use chess_games.Deck.Five.Meaning.{meaning5, meaning5-sort}
use chess_games.Deck.Five.Ladder.{brand5_ranked-brand_of, flush_loop-equal_pairs}
use chess_games.Deck.Five.Wheel.{is_straight5-is_run}

-- The five cards of a sorted hand, and their ranks in order.
Five-cases :
    (l : List Card)
    → length l ≡ 5
    → (a : Card) × (b : Card) × (c : Card) × (d : Card) × (e : Card) × (l ≡ a ∷ b ∷ c ∷ d ∷ e ∷ [])
Five-cases (a ∷ b ∷ c ∷ d ∷ e ∷ []) h = (a, b, c, d, e, refl)
Five-cases [] h = absurd (omega arith)
Five-cases (a ∷ []) h = absurd (omega arith)
Five-cases (a ∷ b ∷ []) h = absurd (omega arith)
Five-cases (a ∷ b ∷ c ∷ []) h = absurd (omega arith)
Five-cases (a ∷ b ∷ c ∷ d ∷ []) h = absurd (omega arith)
Five-cases (a ∷ b ∷ c ∷ d ∷ e ∷ g ∷ l) h = absurd (omega arith)

rank-le : (c : Card) → rank c ≤ 12
unfolding rank
rank-le c = omega arith

sorted_meaning :
    (s : List Card)
    → length s ≡ 5
    → SortedBy rank s
    → brand5_ranked
        (rank (get_or s 0 0))
        (rank (get_or s 1 0))
        (rank (get_or s 2 0))
        (rank (get_or s 3 0))
        (rank (get_or s 4 0))
        (flush_loop true (map suit s))
      ≡ meaning5 s
sorted_meaning s h o =
    let (a, b, c, d, e, q) = Five-cases s h in
    let o' = subst (SortedBy rank) q o in
    rw q (
      rw (
        brand5_ranked-brand_of (rank a) (rank b) (rank c) (rank d) (rank e) o'.0.0 o'.1.0.0
            o'.1.1.0.0 o'.1.1.1.0.0 _,
        is_straight5-is_run (rank a) (rank b) (rank c) (rank d) (rank e) o'.0.0 o'.1.0.0 o'.1.1.0.0
            o'.1.1.1.0.0 (rank-le e),
        flush_loop-equal_pairs (suit a) (suit b) (suit c) (suit d) (suit e),
      ))

-- `brand5` gives the brand that the hand means, in whatever order its five cards come.
pub brand5-meaning5 : (cards : List Card) → length cards ≡ 5 → brand5 cards ≡ meaning5 cards
unfolding brand5
brand5-meaning5 cards h =
    sorted_meaning (sort cards) (length-sort cards ∙ h) (sort-SortedBy cards) ∙ meaning5-sort cards
