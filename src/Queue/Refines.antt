-- ===== src/Queue/Refines.antt =====
-- The operations of the queue on the list of its elements.
use chess_games.Prelude.{
  Bool-cases, [], arith, drop, get_elem?, if◌then◌else◌, inl, inr, length, length-set, not, refl,
  set, suc, sym, ℕ, ◌++◌, ◌+◌, ◌-◌, ◌<◌, ◌==◌, ◌∙◌, ◌∷◌, ◌≡◌, ◌≢◌,
}
use chess_games.Queue.{CircularQueue, max_size, next_pos, pop, push, top}
use chess_games.Queue.View.{
  IsRing, get_elem-or, next_pos-first, next_pos-place_of, place_of, place_of-lt, place_of-shift,
  place_of-zero, read, read_popped, read_pushed, view,
}

module _ {A : Type 0} (blank : A) (q : CircularQueue A) (ring : IsRing q) where
  first-lt : q.size ≢ 0 → q.first < length q.items
  first-lt h = omega (arith, ring.fits, ring.starts)

  push_room :
      (x : A)
      → q.size < length q.items
      → q.first < length q.items
      → IsRing
          (record q { last = next_pos q q.last; size = q.size + 1; items = set q.items q.last x })
        × (read blank (set q.items q.last x) q.first 0 (q.size + 1) ≡ view blank q ++ x ∷ [])
  push_room x room hf = rw ring.ends (
    record {
      fits = omega (arith, length-set q.items (place_of (length q.items) q.first q.size) x);
      starts = inr (omega (arith, length-set q.items (place_of (length q.items) q.first q.size) x));
      ends =
          rw (length-set q.items (place_of (length q.items) q.first q.size) x)
            (next_pos-place_of (length q.items) q.first q.size hf room);
    },
    read_pushed blank q.items q.first q.size x hf room,
  )

  -- A push answers whether the queue had a place left; then the element is behind all others.
  pub push-view :
      (x : A)
      → ((push x q).0 ≡ not (q.size == max_size q))
        × IsRing (push x q).1
        × (view blank (push x q).1
            ≡ (if q.size == max_size q then view blank q else view blank q ++ x ∷ []))
  unfolding push
  push-view x = elim (Bool-cases (q.size == max_size q)) [
    | inl e ↦ rw e (refl, ring, refl)
    | inr e ↦
        let room : q.size < length q.items = ground (arith, ring.fits) in
        let (kept, list) = push_room x room (omega (arith, ring.starts)) in rw e (refl, kept, list)
  ]

  pop_some :
      (n : ℕ)
      → q.size ≡ suc n
      → IsRing (record q {
        first = next_pos q q.first;
        size = q.size - 1;
        items = set q.items q.first blank;
      })
        × (read blank (set q.items q.first blank) (next_pos q q.first) 0 (q.size - 1)
            ≡ drop 1 (view blank q))
  unfolding read
  pop_some n e =
      let hf = first-lt (omega arith) in
      let less : q.size - 1 ≡ n = omega arith in
      let size_set = length-set q.items q.first blank in
      rw (next_pos-first (length q.items) q.first hf, less, e)
        (
          record {
            fits = omega (arith, size_set, ring.fits);
            starts = inr (
                omega (
                  arith,
                  size_set,
                  place_of-lt (length q.items) q.first 1 hf (omega (arith, ring.fits)),
                ));
            ends =
                ring.ends
                ∙ (rw (e, size_set)
                    (let same : suc n ≡ n + 1 = omega arith in
                      rw same (
                        sym (
                          place_of-shift (length q.items) q.first n hf
                            (omega (arith, ring.fits))))));
          },
          read_popped blank q.items q.first n hf (omega (arith, ring.fits)),
        )

  -- A pop takes the first element off, and leaves an empty queue as it is.
  pub pop-view : IsRing (pop blank q) × (view blank (pop blank q) ≡ drop 1 (view blank q))
  unfolding pop read
  pop-view = elim (Bool-cases (q.size == 0)) [
    | inl e ↦ let none_left : q.size ≡ 0 = ground arith in rw e (ring, rw none_left refl)
    | inr e ↦
        let some_left : q.size ≡ suc (q.size - 1) = ground arith in
        rw e (pop_some (q.size - 1) some_left)
  ]

  -- The top is the first element, and there is one unless the queue is empty.
  pub top-view : top q ≡ get_elem? (view blank q) 0
  unfolding top read
  top-view = elim (Bool-cases (q.size == 0)) [
    | inl e ↦ let none_left : q.size ≡ 0 = ground arith in rw (e, none_left) refl
    | inr e ↦
        let some_left : q.size ≡ suc (q.size - 1) = ground arith in
        let hf = first-lt (ground arith) in
        rw (e, some_left, place_of-zero (length q.items) q.first hf)
          (get_elem-or q.items q.first blank hf)
  ]
