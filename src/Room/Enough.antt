-- ===== src/Room/Enough.antt =====
-- A room that passes the tests has cards for all its players.
use chess_games.Prelude.{
  Bool, Bool-cases, List, [], arith, false, get_or, if◌then◌else◌, inl, inr, leb, length,
  length-append, ltb, not, refl, suc, true, zero, ℕ, ◌%◌, ◌&&◌, ◌*◌, ◌++◌, ◌+◌, ◌-◌, ◌==◌, ◌||◌,
  ◌∷◌, ◌≡◌, ◌≤◌,
}
use chess_games.Room.Create.{
  Config, Request, all_suits, check_request, check_suits, extra_loop, make_deck, range, suits_cards,
}
use chess_games.Deck.{Card}

length-range : (k n : ℕ) → length (range k n) ≡ n
unfolding range
length-range k zero = refl
length-range k (suc n) = omega (arith, length-range (k + 1) n)

length-suits_cards : (l : List ℕ) → length (suits_cards l) ≡ length l * 13
unfolding suits_cards
length-suits_cards [] = refl
length-suits_cards (s ∷ l) = omega (
  arith,
  length-append (range (s * 13 + 1) 13) (suits_cards l),
  length-range (s * 13 + 1) 13,
  length-suits_cards l,
)

length-extra_loop : (p left : ℕ) → length (extra_loop p left) ≡ left * 13
unfolding extra_loop
length-extra_loop p zero = refl
length-extra_loop p (suc left) =
    let s : ℕ = get_or all_suits ((p - 1) % 4) 0 * 13 + 1 in
    omega (
      arith,
      length-append (range s 13) (extra_loop (p + 1) left),
      length-range s 13,
      length-extra_loop (p + 1) left,
    )

tests-sizes :
    (a b c d e : Bool) (n k : ℕ)
    → (if a
        then 1
        else if ltb n 2 || ltb 8 n
        then 2
        else if b
        then 4
        else if c
        then 5
        else if d
        then 6
        else if e
        then 7
        else k)
      ≡ 0
    → (2 ≤ n) × (n ≤ 8) × (k ≡ 0)
tests-sizes true b c d e n k h = ground arith
tests-sizes false true c d e n k h = ground arith
tests-sizes false false true d e n k h = ground arith
tests-sizes false false false true e n k h = ground arith
tests-sizes false false false false e n k h = ground arith

-- What an accepted request says of the size and the suits.
pub check_request-sizes :
    (cfg : Config) (r : Request)
    → check_request cfg r ≡ 0
    → (2 ≤ r.player_size) × (r.player_size ≤ 8) × (check_suits r.player_size r.suits ≡ 0)
unfolding check_request
check_request-sizes cfg r h = tests-sizes _ _ _ _ _ r.player_size _ h

suits_test :
    (n m z : ℕ) (b : Bool)
    → (if ltb 4 m
        then 9
        else if not (ltb 0 m)
        then 0
        else if ltb 4 n && ltb m (n - 4)
        then 10
        else if leb n 4 && not (m == 1)
        then 11
        else if b
        then 12
        else z)
      ≡ 0
    → ltb 0 m ≡ true
    → n ≤ 4 + m
suits_test n m z b h g = ground arith

suits-enough :
    (n : ℕ) (suits : List ℕ)
    → check_suits n suits ≡ 0
    → ltb 0 (length suits) ≡ true
    → n ≤ 4 + length suits
unfolding check_suits
suits-enough n suits h g = suits_test n (length suits) 0 _ h g

length-deck :
    (g : Bool) (n : ℕ) (suits : List ℕ)
    → 52 + length (if ltb 0 (length suits) then suits_cards suits else extra_loop 5 (n - 4))
      ≤ length (make_deck g n suits)
unfolding make_deck
length-deck g n suits = parts (if g then 54 else 52) (two g) _ _
  where
    two : (g : Bool) → 52 ≤ (if g then 54 else 52)
    two true = omega arith
    two false = omega arith

    parts :
        (m : ℕ) → 52 ≤ m → (xs ys : List Card) → 52 + length ys ≤ length (range 1 m ++ (xs ++ ys))
    parts m h xs ys =
        omega (arith, length-append (range 1 m) (xs ++ ys), length-append xs ys, length-range 1 m)

extra-enough :
    (n : ℕ) (suits : List ℕ)
    → n ≤ 8
    → check_suits n suits ≡ 0
    → n * 13
      ≤ 52 + length (if ltb 0 (length suits) then suits_cards suits else extra_loop 5 (n - 4))
extra-enough n suits b h = elim (Bool-cases (ltb 0 (length suits))) [
  | inl e ↦ rw e (omega (arith, length-suits_cards suits, suits-enough n suits h e))
  | inr e ↦ rw e (omega (arith, length-extra_loop 5 (n - 4)))
]

-- The deck of an accepted room has thirteen cards for each of its players, with any suits added
-- and with and without ghosts.
pub make_deck-enough :
    (cfg : Config) (r : Request)
    → check_request cfg r ≡ 0
    → r.player_size * 13 ≤ length (make_deck r.with_ghost r.player_size r.suits)
make_deck-enough cfg r h =
    let (two, small, passed) = check_request-sizes cfg r h in
    omega (
      arith,
      extra-enough r.player_size r.suits small passed,
      length-deck r.with_ghost r.player_size r.suits,
    )
