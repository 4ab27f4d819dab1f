-- ===== src/FastMap/Steps.antt =====
-- What is in a `FastTravelUnorderedMap` after an item is added or taken out.
use chess_games.FastMap.Keys.{
  IsConsistent, get_elem?-beyond, get_elem?-set, get_elem?-snoc, get_elem?-take,
}
use chess_games.FastMap.{FastMap, added, find, moved, shrunk}
use chess_games.Prelude.{
  Option, arith, get_elem?, if◌then◌else◌, length, ltb, none, set, some, ℕ, ◌+◌, ◌-◌, ◌<◌, ◌==◌,
  ◌≡◌, ◌≢◌,
}

module _ {A : Type 0} (q : FastMap A) (ok : IsConsistent q) (k : ℕ) where
  pub added-IsConsistent : (v : A) → q.index k ≡ none → IsConsistent (added k v q)
  added-IsConsistent v new = record {
    here = λ j i h. ground (
      arith,
      new,
      h,
      ok.here j i,
      get_elem?-snoc q.items (k, v) i,
      get_elem?-beyond q.items (length q.items),
    );
    there = λ j i h. ground (arith, new, h, ok.there j i, get_elem?-snoc q.items (k, v) i);
  }

  pub find-added :
      (v : A) (j : ℕ) (o : Option ℕ)
      → q.index j ≡ o
      → find j (added k v q) ≡ (if k == j then some (some v) else find j q)
  unfolding find
  find-added v j none e = ground (arith, e, get_elem?-snoc q.items (k, v) (length q.items))
  find-added v j (some i) e = ground (
    arith,
    e,
    ok.here j i e,
    get_elem?-beyond q.items i,
    get_elem?-snoc q.items (k, v) i,
    get_elem?-snoc q.items (k, v) (length q.items),
  )

  module _ (i : ℕ) (old : q.index k ≡ some i) where
    pub place-below : i < length q.items
    place-below = ground (arith, ok.here k i old, get_elem?-beyond q.items i)

    pub shrunk-IsConsistent : i + 1 ≡ length q.items → IsConsistent (shrunk k q)
    shrunk-IsConsistent end = record {
      here = λ j m h. ground (
        arith,
        old,
        end,
        h,
        ok.here j m,
        ok.here k i,
        get_elem?-beyond q.items m,
        get_elem?-take (length q.items - 1) q.items m,
      );
      there = λ j m h. ground (
        arith,
        old,
        end,
        h,
        ok.there j m,
        ok.here k i,
        get_elem?-take (length q.items - 1) q.items m,
      );
    }

    pub find-shrunk :
        i + 1 ≡ length q.items
        → (j : ℕ) (o : Option ℕ) → q.index j ≡ o
        → find j (shrunk k q) ≡ (if k == j then some none else find j q)
    unfolding find
    find-shrunk end j none e = ground (arith, e)
    find-shrunk end j (some m) e = ground (
      arith,
      e,
      end,
      old,
      ok.here j m e,
      ok.here k i old,
      get_elem?-beyond q.items m,
      get_elem?-take (length q.items - 1) q.items m,
    )

    module _ (last : ℕ × A) (inside : i + 1 < length q.items)
        (top : get_elem? q.items (length q.items - 1) ≡ some last) where
      get_elem?-filled :
          (j : ℕ)
          → get_elem? (moved k i q (some last)).items j ≡ (
              if ltb j (length q.items - 1)
              then if i == j then some last else get_elem? q.items j
              else none)
      get_elem?-filled j = ground (
        arith,
        inside,
        get_elem?-set q.items i j last (omega (arith, inside)),
        get_elem?-take (length q.items - 1) (set q.items i last) j,
      )

      last-index : q.index last.0 ≡ some (length q.items - 1)
      last-index = ok.there last.0 (length q.items - 1) (ground (arith, top))

      last-other : k ≢ last.0
      last-other e = ground (arith, e, inside, old, last-index)

      pub filled-IsConsistent : IsConsistent (moved k i q (some last))
      filled-IsConsistent = record {
        here = λ j m h. ground (
          arith,
          old,
          inside,
          top,
          h,
          last-other,
          last-index,
          ok.here j m,
          ok.here k i old,
          ok.there j i,
          get_elem?-beyond q.items m,
          get_elem?-filled m,
        );
        there = λ j m h. ground (
          arith,
          old,
          inside,
          top,
          h,
          last-other,
          last-index,
          ok.there j m,
          ok.here k i old,
          get_elem?-filled m,
        );
      }

      pub find-filled :
          (j : ℕ) (o : Option ℕ)
          → q.index j ≡ o
          → find j (moved k i q (some last)) ≡ (if k == j then some none else find j q)
      unfolding find
      find-filled j none e = ground (arith, e, last-index)
      find-filled j (some m) e = ground (
        arith,
        e,
        inside,
        top,
        old,
        last-other,
        last-index,
        ok.here j m e,
        ok.here k i old,
        get_elem?-beyond q.items m,
        get_elem?-filled i,
        get_elem?-filled m,
      )
