-- ===== src/Deck/Five/Ladder.antt =====
-- The ladder of tests of `brand5` over sorted ranks, by the tests of neighbours alone.
use chess_games.Prelude.{
  Bool, [], arith, if◌then◌else◌, not, true, ℕ, ◌&&◌, ◌+◌, ◌==◌, ◌||◌, ◌∷◌, ◌≡◌, ◌≤◌,
}
use chess_games.Deck.{
  five_of_kind, flush, four_of_kind, full_house, hight_card, one_pair, straight, straight_flush,
  three_of_kind, two_pairs,
}
use chess_games.Deck.Loops.{flush_loop, straight_loop}
use chess_games.Deck.Five.{brand5_ranked, is_straight5}
use chess_games.Deck.Five.Meaning.{brand_of, equal_pairs, greatest, least}

pub flush_loop-equal_pairs :
    (a b c d e : ℕ)
    → flush_loop true (a ∷ b ∷ c ∷ d ∷ e ∷ []) ≡ (equal_pairs (a ∷ b ∷ c ∷ d ∷ e ∷ []) == 10)
unfolding flush_loop
flush_loop-equal_pairs a b c d e = ground arith

eq_over2 : (a b c : ℕ) → a ≤ b → b ≤ c → (a == c) ≡ (a == b) && (b == c)
eq_over2 a b c h k = ground arith

eq_over3 : (a b c d : ℕ) → a ≤ b → b ≤ c → c ≤ d → (a == d) ≡ (a == b) && (b == c) && (c == d)
eq_over3 a b c d h k l = ground arith

eq_over4 :
    (a b c d e : ℕ)
    → a ≤ b
    → b ≤ c
    → c ≤ d
    → d ≤ e
    → (a == e) ≡ (a == b) && (b == c) && (c == d) && (d == e)
eq_over4 a b c d e h k l m = ground arith

abbrev one : Bool → ℕ
one p = if p then 1 else 0

-- `equal_pairs` of a sorted list, from the tests of its neighbours.
abbrev pub pairs_of : Bool → Bool → Bool → Bool → ℕ
pairs_of p q r s =
    (one p + (one (p && q) + (one (p && q && r) + (one (p && q && r && s) + 0))))
    + ((one q + (one (q && r) + (one (q && r && s) + 0)))
        + ((one r + (one (r && s) + 0)) + ((one s + 0) + 0)))

ladder :
    (p q r s f st : Bool)
    → (if p && q && r && s
        then five_of_kind
        else if st && f
        then straight_flush
        else if (p && q && r) || (q && r && s)
        then four_of_kind
        else if ((p && q) && s) || ((r && s) && p)
        then full_house
        else if f
        then flush
        else if st
        then straight
        else if (p && q) || (r && s) || (q && r)
        then three_of_kind
        else if (p && r) || (p && s) || (q && s)
        then two_pairs
        else if p || q || r || s
        then one_pair
        else hight_card)
      ≡ brand_of (pairs_of p q r s) st f
ladder p q r s f st = ground arith

pub pairs_of-zero : (p q r s : Bool) → (pairs_of p q r s == 0) ≡ not p && not q && not r && not s
pairs_of-zero p q r s = ground arith

module _ (a b c d e : ℕ) (ab : a ≤ b) (bc : b ≤ c) (cd : c ≤ d) (de : d ≤ e) where
  pub equal_pairs-pairs_of :
      equal_pairs (a ∷ b ∷ c ∷ d ∷ e ∷ []) ≡ pairs_of (a == b) (b == c) (c == d) (d == e)
  equal_pairs-pairs_of = rw (
    eq_over4 a b c d e ab bc cd de,
    eq_over3 a b c d ab bc cd,
    eq_over3 b c d e bc cd de,
    eq_over2 a b c ab bc,
    eq_over2 b c d bc cd,
    eq_over2 c d e cd de,
  )

  pub brand5_ranked-brand_of :
      (f : Bool)
      → brand5_ranked a b c d e f
        ≡ brand_of (equal_pairs (a ∷ b ∷ c ∷ d ∷ e ∷ [])) (is_straight5 a b c d e) f
  unfolding brand5_ranked
  brand5_ranked-brand_of f =
      rw
        (
          equal_pairs-pairs_of,
          eq_over4 a b c d e ab bc cd de,
          eq_over3 a b c d ab bc cd,
          eq_over3 b c d e bc cd de,
          eq_over2 a b c ab bc,
          eq_over2 b c d bc cd,
          eq_over2 c d e cd de,
        )
        (ladder (a == b) (b == c) (c == d) (d == e) f (is_straight5 a b c d e))

  pub least-sorted : e ≤ 12 → least (a ∷ b ∷ c ∷ d ∷ e ∷ []) ≡ a
  least-sorted h = omega arith

  pub greatest-sorted : greatest (a ∷ b ∷ c ∷ d ∷ e ∷ []) ≡ e
  greatest-sorted = omega arith

  pub span-loop :
      straight_loop true (a ∷ b ∷ c ∷ d ∷ e ∷ [])
      ≡ (not (a == b) && not (b == c) && not (c == d) && not (d == e)) && (e == a + 4)
  unfolding straight_loop
  span-loop = ground arith
