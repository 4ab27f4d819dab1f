-- ===== src/Deck/Sort.antt =====
-- `std::sort` with `lessCard`. Equal keys mean equal cards, so every sorting algorithm gives
-- the same array; insertion is taken here.
use mathlib.Core.List.{Perm}
use mathlib.Core.List.Perm
use chess_games.Prelude.{
  All, Bool-cases, List, [], arith, false, if◌then◌else◌, inl, inr, length, refl, suc, true, ℕ, ◌∷◌,
  ◌≡◌, ◌≤◌,
}
use chess_games.Deck.{Card, less_card, rank}

unfoldable pub insert : Card → List Card → List Card
insert c [] = c ∷ []
insert c (d ∷ l) = if less_card d c then d ∷ insert c l else c ∷ d ∷ l

unfoldable pub sort : List Card → List Card
unfolding insert
sort [] = []
sort (c ∷ l) = insert c (sort l)

insert-perm : (c : Card) (l : List Card) → Perm (insert c l) (c ∷ l)
unfolding insert
insert-perm c [] = Perm.refl (c ∷ [])
insert-perm c (d ∷ l) = elim (Bool-cases (less_card d c)) [
  | inl e ↦ rw e (Perm.trans (Perm.cons d (insert-perm c l)) (Perm.swap c d l))
  | inr e ↦ rw e (Perm.refl (c ∷ d ∷ l))
]

-- The sorted array holds the same cards.
pub sort-perm : (l : List Card) → Perm (sort l) l
unfolding sort
sort-perm [] = Perm.refl []
sort-perm (c ∷ l) = Perm.trans (insert-perm c (sort l)) (Perm.cons c (sort-perm l))

length-insert : (c : Card) (l : List Card) → length (insert c l) ≡ suc (length l)
unfolding insert
length-insert c [] = refl
length-insert c (d ∷ l) = ground (arith, length-insert c l)

pub length-sort : (l : List Card) → length (sort l) ≡ length l
unfolding sort
length-sort [] = refl
length-sort (c ∷ l) = omega (arith, length-insert c (sort l), length-sort l)

-- `f` does not fall along the list.
abbrev pub SortedBy : (Card → ℕ) → List Card → Type 0
SortedBy f [] = Unit {0}
SortedBy f (c ∷ l) = All (λ d. f c ≤ f d) l × SortedBy f l

All-insert {κ} : (P : Card → Type κ) (c : Card) (l : List Card) → P c → All P l → All P (insert c l)
unfolding insert
All-insert P c [] h a = (h, tt)
All-insert P c (d ∷ l) h a = elim (Bool-cases (less_card d c)) [
  | inl e ↦ rw e (a.0, All-insert P c l h a.1)
  | inr e ↦ rw e (h, a)
]

All-mono :
    (f : Card → ℕ) (m n : ℕ) (l : List Card) → m ≤ n → All (λ d. n ≤ f d) l → All (λ d. m ≤ f d) l
All-mono f m n [] h a = tt
All-mono f m n (d ∷ l) h a = (omega arith, All-mono f m n l h a.1)

rank_of_less : (d c : Card) → less_card d c ≡ true → rank d ≤ rank c
unfolding less_card
rank_of_less d c h = ground arith

rank_of_not_less : (d c : Card) → less_card d c ≡ false → rank c ≤ rank d
unfolding less_card
rank_of_not_less d c h = ground arith

insert-SortedBy : (c : Card) (l : List Card) → SortedBy rank l → SortedBy rank (insert c l)
unfolding insert
insert-SortedBy c [] s = (tt, tt)
insert-SortedBy c (d ∷ l) s = elim (Bool-cases (less_card d c)) [
  | inl e ↦
      rw e (All-insert (λ x. rank d ≤ rank x) c l (rank_of_less d c e) s.0, insert-SortedBy c l s.1)
  | inr e ↦ rw e ((rank_of_not_less d c e, All-mono rank _ _ l (rank_of_not_less d c e) s.0), s)
]

-- The ranks of the sorted array do not fall.
pub sort-SortedBy : (l : List Card) → SortedBy rank (sort l)
unfolding sort
sort-SortedBy [] = tt
sort-SortedBy (c ∷ l) = insert-SortedBy c (sort l) (sort-SortedBy l)
