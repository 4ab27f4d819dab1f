-- ===== src/Room/Banker.antt =====
-- The banker's game deals eight cards into a hand of thirteen places, and five more later.
use chess_games.Prelude.{
  All, Bool-cases, List, [], arith, count, drop, false, inl, inr, length, length-append, length-set,
  ltb, lt→ltb, refl, set, take, ℕ, ◌++◌, ◌+◌, ◌<◌, ◌∷◌, ◌≡◌, ◌≤◌,
}
use chess_games.Score.Total.{All-set}
use chess_games.Room.Create.{insert_up, sort_up}
use chess_games.Room.Deal.{dealt_cards, fill_up}
use chess_games.Deck.{Card}
use chess_games.Room.Hands.{length-sort_up, length-take}

-- Five cards `z`, and `l` behind them.
abbrev pub five_of : ℕ → List ℕ → List ℕ
five_of z l = z ∷ z ∷ z ∷ z ∷ z ∷ l

-- The cards are all greater than `z`.
abbrev pub Above : ℕ → List ℕ → Type 0
Above z l = All (λ c. z < c) l

not_below : (x y : ℕ) → x ≤ y → ltb y x ≡ false
not_below x y h = ground arith

insert_up-five_of :
    (z x : ℕ) (l : List ℕ) → z < x → insert_up x (five_of z l) ≡ five_of z (insert_up x l)
unfolding insert_up
insert_up-five_of z x l h = rw (lt→ltb z x h) refl

insert_up-least : (z : ℕ) (l : List ℕ) → All (λ c. z ≤ c) l → insert_up z l ≡ z ∷ l
unfolding insert_up
insert_up-least z [] h = refl
insert_up-least z (y ∷ l) h = rw (not_below z y h.0) refl

weaken : (z : ℕ) (l : List ℕ) → Above z l → All (λ c. z ≤ c) l
weaken z [] h = tt
weaken z (y ∷ l) h = (omega arith, weaken z l h.1)

Above-insert_up : (z x : ℕ) (l : List ℕ) → z < x → Above z l → Above z (insert_up x l)
unfolding insert_up
Above-insert_up z x [] h a = (h, tt)
Above-insert_up z x (y ∷ l) h a = elim (Bool-cases (ltb y x)) [
  | inl e ↦ rw e (a.0, Above-insert_up z x l h a.1)
  | inr e ↦ rw e (h, a)
]

Above-sort_up : (z : ℕ) (l : List ℕ) → Above z l → Above z (sort_up l)
unfolding sort_up
Above-sort_up z [] h = tt
Above-sort_up z (y ∷ l) h = Above-insert_up z y (sort_up l) h.0 (Above-sort_up z l h.1)

sort_up-five_of : (z : ℕ) (l : List ℕ) → Above z l → sort_up (five_of z l) ≡ five_of z (sort_up l)
unfolding sort_up
sort_up-five_of z l h =
    let low : All (λ c. z ≤ c) (sort_up l) = weaken z (sort_up l) (Above-sort_up z l h) in
    let le : z ≤ z = omega arith in
    rw (
      insert_up-least z (sort_up l) low,
      insert_up-least z (z ∷ sort_up l) (le, low),
      insert_up-least z (z ∷ z ∷ sort_up l) (le, (le, low)),
      insert_up-least z (z ∷ z ∷ z ∷ sort_up l) (le, (le, (le, low))),
      insert_up-least z (z ∷ z ∷ z ∷ z ∷ sort_up l) (le, (le, (le, (le, low)))),
    )

sort_up-behind :
    (z : ℕ) (l : List ℕ)
    → Above z l
    → (m : List ℕ) × (sort_up (l ++ five_of z []) ≡ five_of z m) × Above z m
unfolding sort_up
sort_up-behind z [] h = ([], sort_up-five_of z [] tt, tt)
sort_up-behind z (x ∷ l) h =
    let (m, e, a) = sort_up-behind z l h.1 in
    (insert_up x m, rw e (insert_up-five_of z x m h.0), Above-insert_up z x m h.0 a)

-- A card over a place behind the five, and the sort.
place :
    (z k x : ℕ) (l : List ℕ)
    → z < x
    → Above z l
    → (m : List ℕ) × (sort_up (five_of z (set l k x)) ≡ five_of z m) × Above z m
place z k x l h a =
    let b : Above z (set l k x) = All-set (λ c. z < c) l k x h a in
    (sort_up (set l k x), sort_up-five_of z (set l k x) b, Above-sort_up z (set l k x) b)

five_places :
    (z a b c d e : ℕ) (l : List ℕ)
    → Above z (a ∷ b ∷ c ∷ d ∷ e ∷ [])
    → Above z l
    → (m : List ℕ) × (fill_up 8 (a ∷ b ∷ c ∷ d ∷ e ∷ []) (five_of z l) ≡ five_of z m) × Above z m
unfolding fill_up
five_places z a b c d e l h k =
    let (l1, e1, k1) = place z 3 a l h.0 k in
    let (l2, e2, k2) = place z 4 b l1 h.1.0 k1 in
    let (l3, e3, k3) = place z 5 c l2 h.1.1.0 k2 in
    let (l4, e4, k4) = place z 6 d l3 h.1.1.1.0 k3 in
    let (l5, e5, k5) = place z 7 e l4 h.1.1.1.1.0 k4 in (l5, rw (e1, e2, e3, e4, e5) refl, k5)

count-Above : (z : ℕ) (l : List ℕ) → Above z l → count z l ≡ 0
count-Above z [] h = refl
count-Above z (y ∷ l) h = ground (arith, count-Above z l h.1)

count-five_of : (z : ℕ) (l : List ℕ) → Above z l → count z (five_of z l) ≡ 5
count-five_of z l h = ground (arith, count-Above z l h)

length-fill_up : (i : ℕ) (more cards : List Card) → length (fill_up i more cards) ≡ length cards
unfolding fill_up
length-fill_up i [] cards = refl
length-fill_up i (c ∷ more) cards = omega (
  arith,
  length-fill_up (i + 1) more (sort_up (set cards i c)),
  length-sort_up (set cards i c),
  length-set cards i c,
)

-- In the banker's game five cards `z` that the last places of a hand hold before the deal, less
-- than every card dealt, are still in the hand of thirteen once all cards are dealt: the sort
-- moves them to the front, and the last five cards overwrite cards of the same deal.
pub fill_up-stale :
    (z : ℕ) (deck old : List Card) (a b c d e : Card)
    → 8 ≤ length deck
    → Above z (take 8 deck)
    → Above z (a ∷ b ∷ c ∷ d ∷ e ∷ [])
    → drop 8 old ≡ five_of z []
    → (count z (fill_up 8 (a ∷ b ∷ c ∷ d ∷ e ∷ []) (dealt_cards 8 deck old)) ≡ 5)
      × (length (fill_up 8 (a ∷ b ∷ c ∷ d ∷ e ∷ []) (dealt_cards 8 deck old)) ≡ 13)
fill_up-stale z deck old a b c d e h above more stale =
    let (m, em, km) = sort_up-behind z (take 8 deck) above in
    let (l, el, kl) = five_places z a b c d e m more km in
    (
      rw (stale, em, el) (count-five_of z l kl),
      rw stale (
          omega (
            arith,
            length-fill_up 8 (a ∷ b ∷ c ∷ d ∷ e ∷ []) (sort_up (take 8 deck ++ five_of z [])),
            length-sort_up (take 8 deck ++ five_of z []),
            length-append (take 8 deck) (five_of z []),
            length-take 8 deck h,
          )),
    )
