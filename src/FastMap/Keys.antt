-- ===== src/FastMap/Keys.antt =====
-- When the vector and the map of a `FastTravelUnorderedMap` agree.
use chess_games.FastMap.{FastMap}
use chess_games.Prelude.{
  List, Option, [], arith, get_elem?, if◌then◌else◌, length, ltb, none, refl, set, some, suc, take,
  zero, ℕ, ◌++◌, ◌<◌, ◌==◌, ◌∙◌, ◌∷◌, ◌≡◌, ◌≤◌,
}

abbrev pub key_of : {A : Type 0} → Option (ℕ × A) → Option ℕ
key_of none = none
key_of (some x) = some x.0

abbrev pub key_at : {A : Type 0} → List (ℕ × A) → ℕ → Option ℕ
key_at l i = key_of (get_elem? l i)

-- A key leads to the place that has it, and each place's key leads there.
pub record IsConsistent {A : Type 0} (q : FastMap A) : Type 0 where
  pub here : (k i : ℕ) → q.index k ≡ some i → key_at q.items i ≡ some k
  pub there : (k i : ℕ) → key_at q.items i ≡ some k → q.index k ≡ some i

pub get_elem?-snoc :
    {A : Type 0} (l : List A) (x : A) (i : ℕ)
    → get_elem? (l ++ x ∷ []) i ≡ (if i == length l then some x else get_elem? l i)
get_elem?-snoc [] x zero = ground arith
get_elem?-snoc [] x (suc i) = ground arith
get_elem?-snoc (y ∷ l) x zero = ground arith
get_elem?-snoc (y ∷ l) x (suc i) = get_elem?-snoc l x i ∙ ground arith

pub get_elem?-set :
    {A : Type 0} (l : List A) (i j : ℕ) (x : A)
    → i < length l
    → get_elem? (set l i x) j ≡ (if i == j then some x else get_elem? l j)
get_elem?-set [] i j x h = absurd (omega arith)
get_elem?-set (y ∷ l) zero zero x h = ground arith
get_elem?-set (y ∷ l) zero (suc j) x h = ground arith
get_elem?-set (y ∷ l) (suc i) zero x h = ground arith
get_elem?-set (y ∷ l) (suc i) (suc j) x h = get_elem?-set l i j x (omega arith) ∙ ground arith

pub get_elem?-take :
    {A : Type 0} (n : ℕ) (l : List A) (j : ℕ)
    → get_elem? (take n l) j ≡ (if ltb j n then get_elem? l j else none)
get_elem?-take zero l j = ground arith
get_elem?-take (suc n) [] j = ground arith
get_elem?-take (suc n) (y ∷ l) zero = ground arith
get_elem?-take (suc n) (y ∷ l) (suc j) = get_elem?-take n l j ∙ ground arith

pub get_elem?-beyond : {A : Type 0} (l : List A) (i : ℕ) → length l ≤ i → get_elem? l i ≡ none
get_elem?-beyond [] i h = refl
get_elem?-beyond (x ∷ l) zero h = absurd (omega arith)
get_elem?-beyond (x ∷ l) (suc i) h = get_elem?-beyond l i (omega arith)

pub get_elem?-below :
    {A : Type 0} (l : List A) (i : ℕ) → i < length l → (x : A) × (get_elem? l i ≡ some x)
get_elem?-below [] i h = absurd (omega arith)
get_elem?-below (x ∷ l) zero h = (x, refl)
get_elem?-below (x ∷ l) (suc i) h = get_elem?-below l i (omega arith)
