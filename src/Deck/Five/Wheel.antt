-- ===== src/Deck/Five/Wheel.antt =====
-- Runs of five ranks, A2345 included.
use chess_games.Prelude.{
  ==_iff, Bool, [], arith, count, false, if◌then◌else◌, leb, refl, sym, true, ℕ, ◌&&◌, ◌==◌, ◌||◌,
  ◌∷◌, ◌≡◌, ◌≤◌, ◌⊎◌,
}
use chess_games.Deck.Five.{is_straight5}
use chess_games.Deck.Five.Meaning.{has_wheel, is_run}
use chess_games.Deck.Five.Ladder.{
  equal_pairs-pairs_of, greatest-sorted, least-sorted, pairs_of-zero, span-loop,
}

Among : ℕ → ℕ → ℕ → ℕ → ℕ → ℕ → Type 0
Among k a b c d e = (k ≡ a) ⊎ (k ≡ b) ⊎ (k ≡ c) ⊎ (k ≡ d) ⊎ (k ≡ e)

count-Among :
    (k a b c d e : ℕ) → leb 1 (count k (a ∷ b ∷ c ∷ d ∷ e ∷ [])) ≡ true → Among k a b c d e
unfolding Among
count-Among k a b c d e h = ground arith

abbrev wheel : ℕ → ℕ → ℕ → ℕ → ℕ → Bool
wheel a b c d e = (a == 0) && (b == 1) && (c == 2) && (d == 3) && (e == 12)

Bool_ext : (p q : Bool) → (p ≡ true → q ≡ true) → (q ≡ true → p ≡ true) → p ≡ q
Bool_ext true q h k = sym (h refl)
Bool_ext false true h k = k refl
Bool_ext false false h k = refl

or_swap : (p q : Bool) → (if p then true else q) ≡ q || p
or_swap p q = ground arith

and_parts :
    (p q r s t : Bool)
    → (p && q && r && s && t) ≡ true
    → (p ≡ true) × (q ≡ true) × (r ≡ true) × (s ≡ true) × (t ≡ true)
and_parts p q r s t h = ground arith

module _ (a b c d e : ℕ) (ab : a ≤ b) (bc : b ≤ c) (cd : c ≤ d) (de : d ≤ e) (top : e ≤ 12) where
  wheel_ends : Among 0 a b c d e → Among 12 a b c d e → (a ≡ 0) × (e ≡ 12)
  unfolding Among
  wheel_ends h0 h12 = omega arith

  wheel_middle :
      a ≡ 0
      → e ≡ 12
      → Among 1 a b c d e
      → Among 2 a b c d e
      → Among 3 a b c d e
      → (b ≡ 1) × (c ≡ 2) × (d ≡ 3)
  unfolding Among
  wheel_middle ha he h1 h2 h3 = omega arith

  has_wheel-wheel : has_wheel (a ∷ b ∷ c ∷ d ∷ e ∷ []) ≡ true → wheel a b c d e ≡ true
  has_wheel-wheel h =
      let (h0, h1, h2, h3, h12) = and_parts _ _ _ _ _ h in
      let (ea, ee) = wheel_ends (count-Among 0 a b c d e h0) (count-Among 12 a b c d e h12) in
      let (eb, ec, ed) =
        wheel_middle ea ee (count-Among 1 a b c d e h1) (count-Among 2 a b c d e h2)
          (count-Among 3 a b c d e h3) in
      rw (ea, eb, ec, ed, ee)

  wheel-has_wheel : wheel a b c d e ≡ true → has_wheel (a ∷ b ∷ c ∷ d ∷ e ∷ []) ≡ true
  wheel-has_wheel h =
      let (ha, hb, hc, hd, he) = and_parts (a == 0) (b == 1) (c == 2) (d == 3) (e == 12) h in
      rw (
        (==_iff a 0).0 ha,
        (==_iff b 1).0 hb,
        (==_iff c 2).0 hc,
        (==_iff d 3).0 hd,
        (==_iff e 12).0 he,
      )

  wheel-eq : wheel a b c d e ≡ has_wheel (a ∷ b ∷ c ∷ d ∷ e ∷ [])
  wheel-eq = Bool_ext _ _ wheel-has_wheel has_wheel-wheel

  pub is_straight5-is_run : is_straight5 a b c d e ≡ is_run (a ∷ b ∷ c ∷ d ∷ e ∷ [])
  unfolding is_straight5
  is_straight5-is_run =
      rw
        (
          ← wheel-eq,
          span-loop a b c d e ab bc cd de,
          equal_pairs-pairs_of a b c d e ab bc cd de,
          pairs_of-zero (a == b) (b == c) (c == d) (d == e),
          least-sorted a b c d e ab bc cd de top,
          greatest-sorted a b c d e ab bc cd de,
        )
        (or_swap (wheel a b c d e) _)
