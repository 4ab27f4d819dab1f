-- ===== src/Queue/View.antt =====
-- The queue as the list of its elements, the first one first.
use native.Mathlib.Nat.{mod_self, mod-eq_of_lt}
use chess_games.Prelude.{
  Bool-cases, List, [], ap, arith, get_elem?, get_or, if◌then◌else◌, inl, inr, length, length-set,
  ltb, refl, set, some, suc, zero, ℕ, ◌%◌, ◌++◌, ◌+◌, ◌-◌, ◌<◌, ◌==◌, ◌∙◌, ◌∷◌, ◌≡◌, ◌≢◌, ◌≤◌, ◌⊎◌,
}
use chess_games.Queue.{CircularQueue}

-- The place of the element `k` behind the first one.
abbrev pub place_of : ℕ → ℕ → ℕ → ℕ
place_of max first k = if ltb (first + k) max then first + k else first + k - max

unfoldable pub read : {A : Type 0} → A → List A → ℕ → ℕ → ℕ → List A
read blank items first k zero = []
read blank items first k (suc n) =
    get_or items (place_of (length items) first k) blank ∷ read blank items first (k + 1) n

abbrev pub view : {A : Type 0} → A → CircularQueue A → List A
view blank q = read blank q.items q.first 0 q.size

-- The positions are in the array, and the last one is behind the elements.
pub record IsRing {A : Type 0} (q : CircularQueue A) : Type 0 where
  pub fits : q.size ≤ length q.items
  pub starts : (length q.items ≡ 0) ⊎ (q.first < length q.items)
  pub ends : q.last ≡ place_of (length q.items) q.first q.size

next_pos-wrap : (p m : ℕ) → p < m → (p + 1) % m ≡ (if p + 1 == m then 0 else p + 1)
next_pos-wrap p m h = elim (Bool-cases (p + 1 == m)) [
  | inl e ↦ let same : p + 1 ≡ m = ground arith in rw (e, same) (mod_self m)
  | inr e ↦ rw e (mod-eq_of_lt (ground arith))
]

get_or-set :
    {A : Type 0} (l : List A) (i j : ℕ) (x d : A) → i ≢ j → get_or (set l i x) j d ≡ get_or l j d
get_or-set [] i j x d h = refl
get_or-set (y ∷ l) zero zero x d h = ground arith
get_or-set (y ∷ l) zero (suc j) x d h = refl
get_or-set (y ∷ l) (suc i) zero x d h = refl
get_or-set (y ∷ l) (suc i) (suc j) x d h = get_or-set l i j x d (omega arith)

get_or-set-same :
    {A : Type 0} (l : List A) (i : ℕ) (x d : A) → i < length l → get_or (set l i x) i d ≡ x
get_or-set-same [] i x d h = ground arith
get_or-set-same (y ∷ l) zero x d h = refl
get_or-set-same (y ∷ l) (suc i) x d h = get_or-set-same l i x d (omega arith)

place_of-differ : (m f j z : ℕ) → f < m → j < m → z < m → j ≢ z → place_of m f z ≢ place_of m f j
place_of-differ m f j z hf hj hz n = ground arith

pub place_of-shift :
    (m f k : ℕ) → f < m → k + 1 ≤ m → place_of m (place_of m f 1) k ≡ place_of m f (k + 1)
place_of-shift m f k hf hk = ground arith

-- A write to a place that is not among those read.
read-set :
    {A : Type 0} (blank : A) (items : List A) (f k n z : ℕ) (x : A)
    → f < length items
    → k + n ≤ length items
    → z < length items
    → (z < k) ⊎ (k + n ≤ z)
    → read blank (set items (place_of (length items) f z) x) f k n ≡ read blank items f k n
unfolding read
read-set blank items f k zero z x hf hk hz h = refl
read-set blank items f k (suc n) z x hf hk hz h = rw (
  length-set items (place_of (length items) f z) x,
  get_or-set items (place_of (length items) f z) (place_of (length items) f k) x blank
      (place_of-differ (length items) f k z hf (omega arith) hz (omega arith)),
  read-set blank items f (k + 1) n z x hf (omega arith) hz (omega arith),
)

read-last :
    {A : Type 0} (blank : A) (items : List A) (f k n : ℕ)
    → read blank items f k (suc n)
      ≡ read blank items f k n ++ get_or items (place_of (length items) f (k + n)) blank ∷ []
unfolding read
read-last blank items f k zero =
    let same : k ≡ k + 0 = omega arith in
    ap (λ i. get_or items (place_of (length items) f i) blank ∷ []) same
read-last blank items f k (suc n) =
    let same : k + 1 + n ≡ k + suc n = omega arith in
    ap (λ l. get_or items (place_of (length items) f k) blank ∷ l)
      (read-last blank items f (k + 1) n
        ∙ ap
            (λ i.
              read blank items f (k + 1) n ++ get_or items (place_of (length items) f i) blank ∷ [])
            same)

read-shift :
    {A : Type 0} (blank : A) (items : List A) (f k n : ℕ)
    → f < length items
    → k + 1 + n ≤ length items
    → read blank items (place_of (length items) f 1) k n ≡ read blank items f (k + 1) n
unfolding read
read-shift blank items f k zero hf h = refl
read-shift blank items f k (suc n) hf h = rw (
  place_of-shift (length items) f k hf (omega arith),
  read-shift blank items f (k + 1) n hf (omega arith),
)

pub place_of-lt : (m f z : ℕ) → f < m → z ≤ m → place_of m f z < m
place_of-lt m f z hf hz = ground arith

pub next_pos-place_of :
    (m f z : ℕ) → f < m → z < m → (place_of m f z + 1) % m ≡ place_of m f (z + 1)
next_pos-place_of m f z hf hz =
    rw (next_pos-wrap (place_of m f z) m (place_of-lt m f z hf (omega arith))) (ground arith)

pub next_pos-first : (m f : ℕ) → f < m → (f + 1) % m ≡ place_of m f 1
next_pos-first m f h = rw (next_pos-wrap f m h) (ground arith)

pub place_of-zero : (m f : ℕ) → f < m → place_of m f 0 ≡ f
place_of-zero m f h = ground arith

pub get_elem-or :
    {A : Type 0} (l : List A) (i : ℕ) (d : A) → i < length l → get_elem? l i ≡ some (get_or l i d)
get_elem-or [] i d h = ground arith
get_elem-or (y ∷ l) zero d h = refl
get_elem-or (y ∷ l) (suc i) d h = get_elem-or l i d (omega arith)

pub read_pushed :
    {A : Type 0} (blank : A) (items : List A) (f n : ℕ) (x : A)
    → f < length items
    → n < length items
    → read blank (set items (place_of (length items) f n) x) f 0 (n + 1)
      ≡ read blank items f 0 n ++ x ∷ []
read_pushed blank items f n x hf hn =
    let up : n + 1 ≡ suc n = omega arith in
    let same : 0 + n ≡ n = omega arith in
    let p = place_of (length items) f n in
    rw (
      up,
      read-last blank (set items p x) f 0 n,
      read-set blank items f 0 n n x hf (omega arith) hn (inr (omega arith)),
      length-set items p x,
      same,
      get_or-set-same items p x blank (place_of-lt (length items) f n hf (omega arith)),
    )

pub read_popped :
    {A : Type 0} (blank : A) (items : List A) (f n : ℕ)
    → f < length items
    → suc n ≤ length items
    → read blank (set items f blank) (place_of (length items) f 1) 0 n ≡ read blank items f 1 n
read_popped blank items f n hf hn =
    let at_first = place_of-zero (length items) f hf in
    let shifted : read blank (set items f blank) (place_of (length (set items f blank)) f 1) 0 n
        ≡ read blank (set items f blank) f 1 n =
      read-shift blank (set items f blank) f 0 n (omega (arith, length-set items f blank))
        (omega (arith, length-set items f blank)) in
    let unread =
      read-set blank items f 1 n 0 blank hf (omega arith) (omega arith) (inl (omega arith)) in
    (rw (length-set items f blank) at shifted) ∙ (rw at_first at unread)
