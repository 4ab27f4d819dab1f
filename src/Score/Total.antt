-- ===== src/Score/Total.antt =====
-- The sum of the prizes through the loop that pays.
use chess_games.Prelude.{
  All, Bool, List, Option-cases, [], ap, arith, get_elem?, inl, inr, length, length-set, refl, set,
  some, subst, suc, sym, zero, ℕ, ◌+◌, ◌<◌, ◌||◌, ◌∙◌, ◌∷◌, ◌≡◌,
}
use chess_games.Prelude.Int.{int_laws, neg_ℤ, pos, ℤ, ◌+ℤ◌}
use chess_games.Score.Players.{Losers, Loss, PlayerData}
use chess_games.Score.Pay.{
  add_prize, final_prize, has_ma_pai_at, is_quan_lei_da, pay_loop, pay_losers,
}
-- The sum of all prizes.
use chess_games.Prelude.{
  All, Bool, List, [], ap, arith, length, refl, suc, zero, ℕ, ◌<◌, ◌||◌, ◌∙◌, ◌∷◌, ◌≡◌,
}
use chess_games.Prelude.Int.{int_laws, neg_ℤ, pos, ℤ, ◌+ℤ◌}
use chess_games.Score.Players.{Losers, Loss, PlayerData}
use chess_games.Score.Pay.{add_prize, final_prize, has_ma_pai_at, pay_losers}

abbrev pub total : List PlayerData → ℤ
total [] = pos 0
total (d ∷ ds) = d.prize +ℤ total ds

-- Every entry of `losers` names a player below `n`.
abbrev pub KeysBelow : ℕ → Losers → Type 0
KeysBelow n m = All (λ (e : ℕ × Loss). e.0 < n) m

-- The losers of all players are players.
abbrev pub IsClosed : ℕ → List PlayerData → Type 0
IsClosed n ds = All (λ (d : PlayerData). KeysBelow n d.losers) ds

total-add_prize :
    (i : ℕ) (p : ℤ) (ds : List PlayerData)
    → i < length ds
    → total (add_prize i p ds) ≡ total ds +ℤ p
unfolding add_prize
total-add_prize i p [] h = elim h [ ]
total-add_prize zero p (d ∷ ds) h = omega int_laws
total-add_prize (suc i) p (d ∷ ds) h = rw (total-add_prize i p ds (omega arith)) (omega int_laws)

length-add_prize : (i : ℕ) (p : ℤ) (ds : List PlayerData) → length (add_prize i p ds) ≡ length ds
unfolding add_prize
length-add_prize i p [] = refl
length-add_prize zero p (d ∷ ds) = refl
length-add_prize (suc i) p (d ∷ ds) = ap suc (length-add_prize i p ds)

add_prize-IsClosed :
    (n i : ℕ) (p : ℤ) (ds : List PlayerData) → IsClosed n ds → IsClosed n (add_prize i p ds)
unfolding add_prize
add_prize-IsClosed n i p [] h = tt
add_prize-IsClosed n zero p (d ∷ ds) h = h
add_prize-IsClosed n (suc i) p (d ∷ ds) h = (h.0, add_prize-IsClosed n i p ds h.1)

-- A list of players with a sum, a size and closed losers.
pub record Keeps (n : ℕ) (t : ℤ) (ds : List PlayerData) : Type 0 where
  pub sum : total ds ≡ t
  pub size : length ds ≡ n
  pub closed : IsClosed n ds

+ℤ_undo : (t p : ℤ) → t +ℤ p +ℤ neg_ℤ p ≡ t
+ℤ_undo t p = omega int_laws

pay_losers-Keeps :
    (da_qiang : ℕ) (add : ℤ) (d : ℕ) (q : Bool) (m : Losers) (n : ℕ) (t : ℤ) (ds : List PlayerData)
    → d < n
    → KeysBelow n m
    → Keeps n t ds
    → Keeps n t (pay_losers da_qiang add d q m ds)
unfolding pay_losers
pay_losers-Keeps da_qiang add d q [] n t ds h k v = v
pay_losers-Keeps da_qiang add d q ((k, l) ∷ m) n t ds h ks v =
    let p : ℤ = final_prize da_qiang add (has_ma_pai_at ds d || has_ma_pai_at ds k) q l in
    let won : List PlayerData = add_prize d p ds in
    let size : length won ≡ n = length-add_prize d p ds ∙ v.size in
    pay_losers-Keeps da_qiang add d q m n t (add_prize k (neg_ℤ p) won) h ks.1 (record {
      sum =
          let there : d < length ds = omega (arith, v.size) in
          let two : total won ≡ total ds +ℤ p = total-add_prize d p ds there in
          let inside : k < length won = omega (arith, size, ks.0) in
          total-add_prize k (neg_ℤ p) won inside
          ∙ ap (λ (z : ℤ). z +ℤ neg_ℤ p) (two ∙ ap (λ (z : ℤ). z +ℤ p) v.sum)
          ∙ +ℤ_undo t p;
      size = length-add_prize k (neg_ℤ p) won ∙ size;
      closed = add_prize-IsClosed n k (neg_ℤ p) won (add_prize-IsClosed n d p ds v.closed);
    })

pub All-set {ℓ κ} :
    {A : Type ℓ} (P : A → Type κ) (xs : List A) (i : ℕ) (v : A)
    → P v
    → All P xs
    → All P (set xs i v)
All-set P [] i v h a = a
All-set P (x ∷ xs) zero v h a = (h, a.1)
All-set P (x ∷ xs) (suc i) v h a = (a.0, All-set P xs i v h a.1)

pub some_inj {ℓ} : {A : Type ℓ} (x v : A) → some x ≡ some v → x ≡ v
some_inj x v e = cc

pub All-get {ℓ κ} :
    {A : Type ℓ} (P : A → Type κ) (xs : List A) (i : ℕ) (v : A)
    → get_elem? xs i ≡ some v
    → All P xs
    → P v
All-get P [] i v e a = cc
All-get P (x ∷ xs) zero v e a = subst P (some_inj x v e) a.0
All-get P (x ∷ xs) (suc i) v e a = All-get P xs i v e a.1

total-set :
    (ds : List PlayerData) (i : ℕ) (d e : PlayerData)
    → get_elem? ds i ≡ some d
    → e.prize ≡ d.prize
    → total (set ds i e) ≡ total ds
total-set [] i d e g p = refl
total-set (x ∷ ds) zero d e g p =
    ap (λ (z : ℤ). z +ℤ total ds) (p ∙ ap (λ (y : PlayerData). y.prize) (sym (some_inj x d g)))
total-set (x ∷ ds) (suc i) d e g p = ap (λ (z : ℤ). x.prize +ℤ z) (total-set ds i d e g p)

pub set-Keeps :
    (n : ℕ) (t : ℤ) (ds : List PlayerData) (i : ℕ) (d e : PlayerData)
    → get_elem? ds i ≡ some d
    → e.prize ≡ d.prize
    → KeysBelow n e.losers
    → Keeps n t ds
    → Keeps n t (set ds i e)
set-Keeps n t ds i d e g p k v = record {
  sum = total-set ds i d e g p ∙ v.sum;
  size = length-set ds i e ∙ v.size;
  closed = All-set (λ (d : PlayerData). KeysBelow n d.losers) ds i e k v.closed;
}

pub get_elem?-lt {ℓ} :
    {A : Type ℓ} (xs : List A) (i : ℕ) (v : A) → get_elem? xs i ≡ some v → i < length xs
get_elem?-lt [] i v e = cc
get_elem?-lt (x ∷ xs) zero v e = omega arith
get_elem?-lt (x ∷ xs) (suc i) v e = omega (arith, get_elem?-lt xs i v e)

pub pay_loop-Keeps :
    (da_qiang : ℕ) (add : ℤ) (enabled : Bool) (left d n : ℕ) (t : ℤ) (ds : List PlayerData)
    → Keeps n t ds
    → Keeps n t (pay_loop da_qiang add enabled left d ds)
unfolding pay_loop
pay_loop-Keeps da_qiang add enabled zero d n t ds v = v
pay_loop-Keeps da_qiang add enabled (suc left) d n t ds v = elim (Option-cases (get_elem? ds d)) [
  | inl e ↦ rw e (pay_loop-Keeps da_qiang add enabled left (d + 1) n t ds v)
  | inr (w, e) ↦
      let keys : KeysBelow n w.losers =
        All-get (λ (d : PlayerData). KeysBelow n d.losers) ds d w e v.closed in
      let q : Bool = is_quan_lei_da enabled (length ds) (length ds) w in
      rw e (
        pay_loop-Keeps da_qiang add enabled left (d + 1) n t _ (
          pay_losers-Keeps da_qiang add d q w.losers n t _
            (subst (λ m. d < m) v.size (get_elem?-lt ds d w e)) keys
            (set-Keeps n t ds d w (record w { quan_lei_da = q }) e refl keys v)))
]
