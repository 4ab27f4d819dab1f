-- ===== src/FastMap/Refines.antt =====
-- A `FastTravelUnorderedMap` as a map from keys to values.
use chess_games.Prelude.{
  Option, ap, arith, false, get_elem?, if◌then◌else◌, inl, inr, length, none, refl, some, subst,
  sym, true, ℕ, ◌+◌, ◌-◌, ◌<◌, ◌==◌, ◌∙◌, ◌≡◌, ◌≢◌, ◌⊎◌,
}
use chess_games.FastMap.{
  FastMap, added, erase, erase_at, find, find_at, insert, moved, no_items, shrunk, value_of,
}
use chess_games.FastMap.Keys.{IsConsistent, get_elem?-below}
use chess_games.FastMap.Steps.{
  added-IsConsistent, filled-IsConsistent, find-added, find-filled, find-shrunk, place-below,
  shrunk-IsConsistent,
}

-- The map `f` from keys to values is what `find` shows.
pub record Models {A : Type 0} (q : FastMap A) (f : ℕ → Option A) : Type 0 where
  pub agrees : IsConsistent q
  pub finds : (j : ℕ) → find j q ≡ some (f j)

abbrev pub with_item : {A : Type 0} → ℕ → A → (ℕ → Option A) → ℕ → Option A
with_item k v f j = if k == j then some v else f j

abbrev pub without : {A : Type 0} → ℕ → (ℕ → Option A) → ℕ → Option A
without k f j = if k == j then none else f j

pub no_items-Models : {A : Type 0} → Models (no_items {A = A}) (λ j. none)
unfolding find
no_items-Models = record {
  agrees = record {
    here = λ k i h. absurd (ground (arith, h));
    there = λ k i h. absurd (ground (arith, h));
  };
  finds = λ j. refl;
}

module _ {A : Type 0} (q : FastMap A) (k : ℕ) where
  find_at-absent : (o : Option ℕ) → find_at q o ≡ some none → o ≡ none
  find_at-absent none e = refl
  find_at-absent (some i) e = absurd (ground (arith, e))

  find-none : q.index k ≡ none → find k q ≡ some none
  unfolding find
  find-none e = rw e refl

  insert-absent : (v : A) → q.index k ≡ none → insert k v q ≡ (true, added k v q)
  unfolding insert
  insert-absent v e = rw e refl

  insert-present : (v : A) (i : ℕ) → q.index k ≡ some i → insert k v q ≡ (false, q)
  unfolding insert
  insert-present v i e = rw e refl

  find-index : (i : ℕ) → q.index k ≡ some i → find k q ≡ value_of (get_elem? q.items i)
  unfolding find
  find-index i e = rw e refl

  erase-index : (o : Option ℕ) → q.index k ≡ o → erase k q ≡ erase_at k q o
  unfolding erase
  erase-index o e = rw e refl

module _ {A : Type 0} (q : FastMap A) (f : ℕ → Option A) (ok : Models q f) (k : ℕ) where
  absent : f k ≡ none → q.index k ≡ none
  unfolding find
  absent e = find_at-absent q k (q.index k) (ok.finds k ∙ ap some e)

  -- `next` has `o` under `k`, and else what `q` has.
  updated :
      (next : FastMap A) (o : Option A)
      → IsConsistent next
      → ((j : ℕ) → find j next ≡ (if k == j then some o else find j q))
      → Models next (λ j. if k == j then o else f j)
  updated next o agrees at = record {
    agrees = agrees;
    finds = λ j. at j ∙ ground (arith, ok.finds j);
  }

  pub insert-new : (v : A) → f k ≡ none → insert k v q ≡ (true, added k v q)
  insert-new v new = insert-absent q k v (absent new)

  pub added-Models : (v : A) → f k ≡ none → Models (added k v q) (with_item k v f)
  added-Models v new =
      updated (added k v q) (some v) (added-IsConsistent q ok.agrees k v (absent new))
        (λ j. find-added q ok.agrees k v j (q.index j) refl)

  pub insert-old : (v w : A) → f k ≡ some w → insert k v q ≡ (false, q)
  insert-old v w old = by_index (q.index k) refl
    where
      by_index : (o : Option ℕ) → q.index k ≡ o → insert k v q ≡ (false, q)
      by_index none e = absurd (ground (arith, ok.finds k, find-none q k e, old))
      by_index (some i) e = insert-present q k v i e

  only : (i j : ℕ) → q.index k ≡ some i → length q.items ≡ 1 → k ≢ j → f j ≡ none
  only i j e one other = by_index (q.index j) refl
    where
      by_index : (o : Option ℕ) → q.index j ≡ o → f j ≡ none
      by_index none a = ground (arith, ok.finds j, find-none q j a)
      by_index (some m) a = absurd (
          ground (
            arith,
            one,
            other,
            place-below q ok.agrees k i e,
            place-below q ok.agrees j m a,
            ok.agrees.here k i e,
            ok.agrees.here j m a,
          ))

  single-Models : (i : ℕ) → q.index k ≡ some i → length q.items ≡ 1 → Models no_items (without k f)
  single-Models i e one = record {
    agrees = no_items-Models.agrees;
    finds = λ j. no_items-Models.finds j ∙ ground (arith, only i j e one);
  }

  place-cases : (n i : ℕ) → i < n → (n ≡ 1) ⊎ ((n ≢ 1) × (i + 1 ≡ n)) ⊎ (i + 1 < n)
  place-cases n i h = ground (arith, h)

  abbrev pub Erased : Option (FastMap A) → Type 0
  Erased r = (next : FastMap A) × (r ≡ some next) × Models next (without k f)

  erase_at-Erased : (i : ℕ) → q.index k ≡ some i → Erased (erase_at k q (some i))
  erase_at-Erased i e = elim (place-cases (length q.items) i (place-below q ok.agrees k i e)) [
    | inl one ↦
        (no_items, ground (arith, one, place-below q ok.agrees k i e), single-Models i e one)
    | inr (inl (more, end)) ↦ (
      shrunk k q,
      ground (arith, more, end),
      updated (shrunk k q) none (shrunk-IsConsistent q ok.agrees k i e end)
          (λ j. find-shrunk q ok.agrees k i e end j (q.index j) refl),
    )
    | inr (inr inside) ↦
        at_last inside (get_elem?-below q.items (length q.items - 1) (omega (arith, inside)))
  ]
    where
      at_last :
          i + 1 < length q.items
          → (x : ℕ × A) × (get_elem? q.items (length q.items - 1) ≡ some x)
          → Erased (erase_at k q (some i))
      at_last inside (last, top) = (
        moved k i q (some last),
        ground (arith, inside, top),
        updated (moved k i q (some last)) none
            (filled-IsConsistent q ok.agrees k i e last inside top)
            (λ j. find-filled q ok.agrees k i e last inside top j (q.index j) refl),
      )

  -- The entry of a key goes.
  pub erase-Models : Erased (erase k q)
  erase-Models = by_index (q.index k) refl
    where
      by_index : (o : Option ℕ) → q.index k ≡ o → Erased (erase k q)
      by_index none e = (
        q,
        erase-index q k none e,
        record {
          agrees = ok.agrees;
          finds = λ j. ground (arith, ok.finds j, ok.finds k, find-none q k e);
        },
      )
      by_index (some i) e = subst Erased (sym (erase-index q k (some i) e)) (erase_at-Erased i e)

pub Models-same :
    {A : Type 0} (q : FastMap A) (f g : ℕ → Option A)
    → ((j : ℕ) → f j ≡ g j)
    → Models q f
    → Models q g
Models-same q f g same ok = record {
  agrees = ok.agrees;
  finds = λ j. ok.finds j ∙ ap some (same j);
}

-- An entry that is taken out again leaves what there was.
pub without-with_item :
    {A : Type 0} (k : ℕ) (v : A) (f : ℕ → Option A)
    → f k ≡ none
    → (j : ℕ) → without k (with_item k v f) j ≡ f j
without-with_item k v f new j = ground (arith, new)
