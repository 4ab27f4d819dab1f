-- ===== src/Score/NoShots.antt =====
-- With the setting 0 for shots nobody is ever shot.
use chess_games.Score.Round.{evaluate-IsFresh}
use chess_games.Score.Total.{All-get, All-set, some_inj}
use chess_games.Prelude.{
  All, Bool, Bool-cases, List, Option, Option-cases, [], arith, false, get_elem?, if◌then◌else◌,
  inl, inr, length, ltb, none, refl, set, some, subst, suc, sym, true, zero, ℕ, ◌&&◌, ◌+◌, ◌==◌,
  ◌||◌, ◌∷◌, ◌≡◌,
}
use chess_games.Prelude.Int.{ℤ}
use chess_games.Score.Players.{
  Losers, Loss, Player, PlayerData, evaluate, evaluate_all, to_u32, ◌>>=◌,
}
use chess_games.Score.Compare.{
  compare_at, compare_common, compare_players, compare_special, inner_loop, is_special, outer_loop,
  rows_prize, set_loser, special_rank,
}
use chess_games.Score.Pay.{all_shot, is_quan_lei_da}

abbrev Unshot : Losers → Type 0
Unshot m = All (λ (e : ℕ × Loss). e.1.shot ≡ 0) m

-- No entry of the player's `losers` is a shot.
abbrev pub NoShot : PlayerData → Type 0
NoShot d = Unshot d.losers

set_loser-Unshot :
    (k : ℕ) (v : Loss) (m : Losers) → v.shot ≡ 0 → Unshot m → Unshot (set_loser k v m)
unfolding set_loser
set_loser-Unshot k v [] h a = (h, tt)
set_loser-Unshot k v ((j, w) ∷ m) h a = elim (Bool-cases (k == j)) [
  | inl e ↦ rw e (h, a.1)
  | inr e ↦ elim (Bool-cases (ltb k j)) [
    | inl f ↦ rw (e, f) (h, a)
    | inr f ↦ rw (e, f) (a.0, set_loser-Unshot k v m h a.1)
  ]
]

Pair : PlayerData × PlayerData → Type 0
Pair r = NoShot r.0 × NoShot r.1

if_Pair : (b : Bool) (r s : PlayerData × PlayerData) → Pair r → Pair s → Pair (if b then r else s)
if_Pair true r s h k = h
if_Pair false r s h k = k

module _ (i j : ℕ) (x y : PlayerData) (hx : NoShot x) (hy : NoShot y) where
  add_j : (p : ℤ) → Unshot (set_loser j (record { price = p; shot = 0 }) x.losers)
  add_j p = set_loser-Unshot j _ x.losers refl hx

  add_i : (p : ℤ) → Unshot (set_loser i (record { price = p; shot = 0 }) y.losers)
  add_i p = set_loser-Unshot i _ y.losers refl hy

  compare_special-Pair : Pair (compare_special i j x y)
  unfolding Pair compare_special
  compare_special-Pair =
      if_Pair (special_rank x == special_rank y) _ _ (hx, hy)
        (if_Pair (ltb (special_rank y) (special_rank x)) _ _ (add_j _, hy) (hx, add_i _))

  compare_common-Pair : Pair (compare_common 0 i j x y)
  unfolding Pair compare_common
  compare_common-Pair =
      if_Pair (to_u32 (rows_prize x y) == 0) _ _ (hx, hy)
        (if_Pair (ltb 0 (to_u32 (rows_prize x y))) _ _ (add_j _, hy) (hx, add_i _))

  compare_players-Pair : Pair (compare_players 0 i j x y)
  unfolding compare_players
  compare_players-Pair =
      if_Pair (is_special x || is_special y) _ _ compare_special-Pair compare_common-Pair

two_writes-NoShot :
    (i j : ℕ) (ds : List PlayerData) (x y : PlayerData)
    → Pair (compare_players 0 i j x y)
    → All NoShot ds
    → All NoShot (set (set ds i (compare_players 0 i j x y).0) j (compare_players 0 i j x y).1)
unfolding Pair
two_writes-NoShot i j ds x y p h = All-set NoShot (set ds i _) j _ p.1 (All-set NoShot ds i _ p.0 h)

compare_at-NoShot :
    (i j : ℕ) (ds : List PlayerData) → All NoShot ds → All NoShot (compare_at 0 i j ds)
unfolding compare_at
compare_at-NoShot i j ds h = elim (Option-cases (get_elem? ds i)) [
  | inl e ↦ rw (e, compare_at) h
  | inr (x, e) ↦ elim (Option-cases (get_elem? ds j)) [
    | inl f ↦ rw (e, f, compare_at) h
    | inr (y, f) ↦
        rw (e, f, compare_at)
          (two_writes-NoShot i j ds x y
            (compare_players-Pair i j x y (All-get NoShot ds i x e h) (All-get NoShot ds j y f h))
            h)
  ]
]

inner_loop-NoShot :
    (left i j : ℕ) (ds : List PlayerData) → All NoShot ds → All NoShot (inner_loop 0 left i j ds)
unfolding inner_loop
inner_loop-NoShot zero i j ds h = h
inner_loop-NoShot (suc left) i j ds h =
    inner_loop-NoShot left i (j + 1) _ (compare_at-NoShot i j ds h)

outer_loop-NoShot :
    (left i : ℕ) (ds : List PlayerData) → All NoShot ds → All NoShot (outer_loop 0 left i ds)
unfolding outer_loop
outer_loop-NoShot zero i ds h = h
outer_loop-NoShot (suc left) i ds h =
    outer_loop-NoShot left (i + 1) _ (inner_loop-NoShot left i (i + 1) ds h)

bind_some {ℓ κ} :
    {A : Type ℓ} {B : Type κ} (m : Option A) (f : A → Option B) (b : B)
    → (m >>= f) ≡ some b
    → (a : A) × (m ≡ some a) × (f a ≡ some b)
bind_some (some a) f b e = (a, refl, e)
bind_some none f b e = cc

evaluate_all-NoShot :
    (ma_pai : ℕ) (ps : List Player) (ds : List PlayerData)
    → evaluate_all ma_pai ps ≡ some ds
    → All NoShot ds
unfolding evaluate_all
evaluate_all-NoShot ma_pai [] ds e = subst (All NoShot) (some_inj [] ds e) tt
evaluate_all-NoShot ma_pai (p ∷ ps) ds e =
    let (d, ed, rest) = bind_some (evaluate ma_pai p) _ ds e in
    let (others, eo, last) = bind_some (evaluate_all ma_pai ps) _ ds rest in
    let fresh : d.losers ≡ [] = (evaluate-IsFresh ma_pai p d ed).1 in
    subst (All NoShot) (some_inj (d ∷ others) ds last)
      (subst Unshot (sym fresh) tt, evaluate_all-NoShot ma_pai ps others eo)

no_quan_lei_da :
    (enabled : Bool) (n : ℕ) (d : PlayerData) → NoShot d → is_quan_lei_da enabled n n d ≡ false
unfolding is_quan_lei_da
no_quan_lei_da enabled n d h = none_shot enabled n d.losers h
  where
    none_shot :
        (enabled : Bool) (n : ℕ) (m : Losers)
        → Unshot m
        → (enabled && ltb 2 n && (length m + 1 == n) && all_shot m) ≡ false
    none_shot enabled n [] h = ground arith
    none_shot enabled n ((k, v) ∷ m) h = unfold all_shot in rw h.0 (ground arith)

All-map {ℓ κ μ} :
    {A : Type ℓ} {P : A → Type κ} {Q : A → Type μ} (f : (a : A) → P a → Q a) (xs : List A)
    → All P xs
    → All Q xs
All-map f [] h = tt
All-map f (x ∷ xs) h = (f x h.0, All-map f xs h.1)

-- With the setting 0 for shots no comparison of a round shoots a player, and so no winner has shot
-- all others.
pub outer_loop-NoShot-All :
    (players : List Player) (ma_pai : ℕ) (enabled : Bool) (ds : List PlayerData)
    → evaluate_all ma_pai players ≡ some ds
    → All
        (λ (d : PlayerData). NoShot d × (is_quan_lei_da enabled (length ds) (length ds) d ≡ false))
        (outer_loop 0 (length ds) 0 ds)
outer_loop-NoShot-All players ma_pai enabled ds e =
    All-map (λ (d : PlayerData) (h : NoShot d). (h, no_quan_lei_da enabled (length ds) d h)) _
      (outer_loop-NoShot (length ds) 0 ds (evaluate_all-NoShot ma_pai players ds e))
