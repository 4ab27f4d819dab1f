-- ===== src/Score/Loops.antt =====
-- The sum of the prizes through the loops that compare.
use chess_games.Score.Total.{All-get, Keeps, KeysBelow, get_elem?-lt, pay_loop-Keeps, set-Keeps}
use chess_games.Prelude.{
  Bool, Bool-cases, List, Option-cases, [], arith, false, get_elem?, if◌then◌else◌, inl, inr,
  length, ltb, not, refl, set, some, subst, suc, true, zero, ℕ, ◌&&◌, ◌+◌, ◌<◌, ◌==◌, ◌||◌, ◌∙◌,
  ◌∷◌, ◌≡◌,
}
use chess_games.Prelude.Int.{ℤ}
use chess_games.Score.Players.{Losers, Loss, PlayerData, to_u32}
use chess_games.Score.Compare.{
  all_lost, all_won, compare_at, compare_common, compare_players, compare_special, inner_loop,
  is_special, outer_loop, rows_prize, set_loser, special_rank,
}
use chess_games.Score.Pay.{settle}

set_loser-KeysBelow :
    (n k : ℕ) (v : Loss) (m : Losers) → k < n → KeysBelow n m → KeysBelow n (set_loser k v m)
unfolding set_loser
set_loser-KeysBelow n k v [] h a = (h, tt)
set_loser-KeysBelow n k v ((j, w) ∷ m) h a = elim (Bool-cases (k == j)) [
  | inl e ↦ rw e (h, a.1)
  | inr e ↦ rw e (elim (Bool-cases (ltb k j)) [
    | inl f ↦ rw f (h, a)
    | inr f ↦ rw f (a.0, set_loser-KeysBelow n k v m h a.1)
  ])
]

-- The two players after their comparison keep their prizes and have losers below `n`.
Compared : ℕ → PlayerData → PlayerData → PlayerData × PlayerData → Type 0
Compared n x y r =
    (r.0.prize ≡ x.prize) × (r.1.prize ≡ y.prize) × KeysBelow n r.0.losers × KeysBelow n r.1.losers

if_Compared :
    (n : ℕ) (x y : PlayerData) (b : Bool) (r s : PlayerData × PlayerData)
    → Compared n x y r
    → Compared n x y s
    → Compared n x y (if b then r else s)
if_Compared n x y true r s h k = h
if_Compared n x y false r s h k = k

module _ (n i j : ℕ) (x y : PlayerData) (hi : i < n) (hj : j < n) (kx : KeysBelow n x.losers)
    (ky : KeysBelow n y.losers) where
  add_j : (v : Loss) → KeysBelow n (set_loser j v x.losers)
  add_j v = set_loser-KeysBelow n j v x.losers hj kx

  add_i : (v : Loss) → KeysBelow n (set_loser i v y.losers)
  add_i v = set_loser-KeysBelow n i v y.losers hi ky

  compare_special-Compared : Compared n x y (compare_special i j x y)
  unfolding Compared compare_special
  compare_special-Compared =
      if_Compared n x y (special_rank x == special_rank y) _ _ (refl, refl, kx, ky)
        (if_Compared n x y (ltb (special_rank y) (special_rank x)) _ _ (refl, refl, add_j _, ky)
          (refl, refl, kx, add_i _))

  compare_common-Compared : (da_qiang : ℕ) → Compared n x y (compare_common da_qiang i j x y)
  unfolding Compared compare_common
  compare_common-Compared da_qiang =
      if_Compared n x y (not (da_qiang == 0) && all_won x y) _ _ (refl, refl, add_j _, ky)
        (if_Compared n x y (not (da_qiang == 0) && all_lost x y) _ _ (refl, refl, kx, add_i _)
          (if_Compared n x y (to_u32 (rows_prize x y) == 0) _ _ (refl, refl, kx, ky)
            (if_Compared n x y (ltb 0 (to_u32 (rows_prize x y))) _ _ (refl, refl, add_j _, ky)
              (refl, refl, kx, add_i _))))

  compare_players-Compared : (da_qiang : ℕ) → Compared n x y (compare_players da_qiang i j x y)
  unfolding compare_players
  compare_players-Compared da_qiang =
      if_Compared n x y (is_special x || is_special y) _ _ compare_special-Compared
        (compare_common-Compared da_qiang)

get_elem?-set_ne {ℓ} :
    {A : Type ℓ} (xs : List A) (i j : ℕ) (v : A) → i < j → get_elem? (set xs i v) j ≡ get_elem? xs j
get_elem?-set_ne [] i j v h = refl
get_elem?-set_ne (x ∷ xs) i zero v h = elim h [ ]
get_elem?-set_ne (x ∷ xs) zero (suc j) v h = refl
get_elem?-set_ne (x ∷ xs) (suc i) (suc j) v h = get_elem?-set_ne xs i j v (omega arith)

-- The two writes of a comparison.
two_writes-Keeps :
    (da_qiang i j n : ℕ) (t : ℤ) (ds : List PlayerData) (x y : PlayerData)
    → i < j
    → get_elem? ds i ≡ some x
    → get_elem? ds j ≡ some y
    → Keeps n t ds
    → Keeps n t
        (set (set ds i (compare_players da_qiang i j x y).0) j (compare_players da_qiang i j x y).1)
unfolding Compared
two_writes-Keeps da_qiang i j n t ds x y ij e f v =
    let keys : PlayerData → Type 0 = λ d. KeysBelow n d.losers in
    let hi : i < n = subst (λ m. i < m) v.size (get_elem?-lt ds i x e) in
    let hj : j < n = subst (λ m. j < m) v.size (get_elem?-lt ds j y f) in
    let (px, py, kx, ky) =
      compare_players-Compared n i j x y hi hj (All-get keys ds i x e v.closed)
        (All-get keys ds j y f v.closed) da_qiang in
    set-Keeps n t _ j y _ (get_elem?-set_ne ds i j _ ij ∙ f) py ky
      (set-Keeps n t ds i x _ e px kx v)

compare_at-Keeps :
    (da_qiang i j n : ℕ) (t : ℤ) (ds : List PlayerData)
    → i < j
    → Keeps n t ds
    → Keeps n t (compare_at da_qiang i j ds)
unfolding compare_at
compare_at-Keeps da_qiang i j n t ds ij v = elim (Option-cases (get_elem? ds i)) [
  | inl e ↦ rw (e, compare_at) v
  | inr (x, e) ↦ elim (Option-cases (get_elem? ds j)) [
    | inl f ↦ rw (e, f, compare_at) v
    | inr (y, f) ↦ rw (e, f, compare_at) (two_writes-Keeps da_qiang i j n t ds x y ij e f v)
  ]
]

inner_loop-Keeps :
    (da_qiang left i j n : ℕ) (t : ℤ) (ds : List PlayerData)
    → i < j
    → Keeps n t ds
    → Keeps n t (inner_loop da_qiang left i j ds)
unfolding inner_loop
inner_loop-Keeps da_qiang zero i j n t ds h v = v
inner_loop-Keeps da_qiang (suc left) i j n t ds h v =
    inner_loop-Keeps da_qiang left i (j + 1) n t (compare_at da_qiang i j ds) (omega arith)
      (compare_at-Keeps da_qiang i j n t ds h v)

outer_loop-Keeps :
    (da_qiang left i n : ℕ) (t : ℤ) (ds : List PlayerData)
    → Keeps n t ds
    → Keeps n t (outer_loop da_qiang left i ds)
unfolding outer_loop
outer_loop-Keeps da_qiang zero i n t ds v = v
outer_loop-Keeps da_qiang (suc left) i n t ds v =
    outer_loop-Keeps da_qiang left (i + 1) n t (inner_loop da_qiang left i (i + 1) ds)
      (inner_loop-Keeps da_qiang left i (i + 1) n t ds (omega arith) v)

pub settle-Keeps :
    (da_qiang : ℕ) (add : ℤ) (enabled : Bool) (n : ℕ) (t : ℤ) (ds : List PlayerData)
    → Keeps n t ds
    → Keeps n t (settle da_qiang add enabled ds)
unfolding settle
settle-Keeps da_qiang add enabled n t ds v =
    let compared : List PlayerData = outer_loop da_qiang (length ds) 0 ds in
    pay_loop-Keeps da_qiang add enabled (length compared) 0 n t compared
      (outer_loop-Keeps da_qiang (length ds) 0 n t ds v)
