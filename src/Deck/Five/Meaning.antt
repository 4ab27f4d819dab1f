-- ===== src/Deck/Five/Meaning.antt =====
-- What a brand of five cards means, read off the hand in any order: by how many pairs of cards
-- agree in rank or in suit, and by the least and the greatest rank.
use Prim.Native.Nat.{min, max}
use chess_games.Prelude.{
  Bool, List, [], arith, count, if◌then◌else◌, leb, map, refl, ℕ, ◌&&◌, ◌+◌, ◌==◌, ◌||◌, ◌∷◌, ◌≡◌,
}
use chess_games.Deck.{
  Brand, Card, five_of_kind, flush, four_of_kind, full_house, hight_card, one_pair, rank, straight,
  straight_flush, suit, three_of_kind, two_pairs,
}
use chess_games.Deck.Sort.{insert, sort}

-- The number of pairs of positions with equal values.
abbrev pub equal_pairs : List ℕ → ℕ
equal_pairs [] = 0
equal_pairs (x ∷ l) = count x l + equal_pairs l

abbrev pub least : List ℕ → ℕ
least [] = 12
least (x ∷ l) = min x (least l)

abbrev pub greatest : List ℕ → ℕ
greatest [] = 0
greatest (x ∷ l) = max x (greatest l)

-- Whether 0, 1, 2, 3 and 12 occur.
abbrev pub has_wheel : List ℕ → Bool
has_wheel r =
    leb 1 (count 0 r)
    && leb 1 (count 1 r)
    && leb 1 (count 2 r)
    && leb 1 (count 3 r)
    && leb 1 (count 12 r)

-- Five different ranks within a span of five, or exactly 2, 3, 4, 5 and the ace.
abbrev pub is_run : List ℕ → Bool
is_run r = ((equal_pairs r == 0) && (greatest r == least r + 4)) || has_wheel r

abbrev pub brand_of : ℕ → Bool → Bool → Brand
brand_of pairs run one_suit =
    if pairs == 10
    then five_of_kind
    else if run && one_suit
    then straight_flush
    else if pairs == 6
    then four_of_kind
    else if pairs == 4
    then full_house
    else if one_suit
    then flush
    else if run
    then straight
    else if pairs == 3
    then three_of_kind
    else if pairs == 2
    then two_pairs
    else if pairs == 1
    then one_pair
    else hight_card

abbrev pub meaning5 : List Card → Brand
meaning5 cards =
    brand_of (equal_pairs (map rank cards)) (is_run (map rank cards))
      (equal_pairs (map suit cards) == 10)

module _ (f : Card → ℕ) where
  count-insert :
      (x : ℕ) (c : Card) (l : List Card) → count x (map f (insert c l)) ≡ count x (map f (c ∷ l))
  unfolding insert
  count-insert x c [] = refl
  count-insert x c (d ∷ l) = ground (arith, count-insert x c l)

  equal_pairs-insert :
      (c : Card) (l : List Card) → equal_pairs (map f (insert c l)) ≡ equal_pairs (map f (c ∷ l))
  unfolding insert
  equal_pairs-insert c [] = refl
  equal_pairs-insert c (d ∷ l) = ground (arith, count-insert (f d) c l, equal_pairs-insert c l)

  least-insert : (c : Card) (l : List Card) → least (map f (insert c l)) ≡ least (map f (c ∷ l))
  unfolding insert
  least-insert c [] = refl
  least-insert c (d ∷ l) = ground (arith, least-insert c l)

  greatest-insert :
      (c : Card) (l : List Card) → greatest (map f (insert c l)) ≡ greatest (map f (c ∷ l))
  unfolding insert
  greatest-insert c [] = refl
  greatest-insert c (d ∷ l) = ground (arith, greatest-insert c l)

count-sort : (f : Card → ℕ) (x : ℕ) (l : List Card) → count x (map f (sort l)) ≡ count x (map f l)
unfolding sort
count-sort f x [] = refl
count-sort f x (c ∷ l) = omega (arith, count-insert f x c (sort l), count-sort f x l)

equal_pairs-sort :
    (f : Card → ℕ) (l : List Card) → equal_pairs (map f (sort l)) ≡ equal_pairs (map f l)
unfolding sort
equal_pairs-sort f [] = refl
equal_pairs-sort f (c ∷ l) =
    omega (arith, equal_pairs-insert f c (sort l), equal_pairs-sort f l, count-sort f (f c) l)

least-sort : (f : Card → ℕ) (l : List Card) → least (map f (sort l)) ≡ least (map f l)
unfolding sort
least-sort f [] = refl
least-sort f (c ∷ l) = ground (arith, least-insert f c (sort l), least-sort f l)

greatest-sort : (f : Card → ℕ) (l : List Card) → greatest (map f (sort l)) ≡ greatest (map f l)
unfolding sort
greatest-sort f [] = refl
greatest-sort f (c ∷ l) = ground (arith, greatest-insert f c (sort l), greatest-sort f l)

-- The meaning does not depend on the order of the cards.
pub meaning5-sort : (cards : List Card) → meaning5 (sort cards) ≡ meaning5 cards
meaning5-sort l = rw (
  equal_pairs-sort rank l,
  equal_pairs-sort suit l,
  least-sort rank l,
  greatest-sort rank l,
  count-sort rank 0 l,
  count-sort rank 1 l,
  count-sort rank 2 l,
  count-sort rank 3 l,
  count-sort rank 12 l,
)
