-- ===== src/Net/Places.antt =====
-- The places of `ConnectionBuffer` of server/water/net/buffered_connection.h, and what lies there.
use chess_games.Prelude.{
  Bool, List, [], ap, arith, drop, false, if◌then◌else◌, length, length-append, ltb, refl, subst,
  suc, sym, take, true, zero, ℕ, ◌++◌, ◌+◌, ◌-◌, ◌==◌, ◌||◌, ◌∙◌, ◌∷◌, ◌≡◌, ◌≤◌,
}
use chess_games.Net.Buffer.{
  ConnectionBuffer, commit_read, commit_write, is_full, moved_to_front, readable, restarted,
  writeable, written,
}

length-take : (n : ℕ) (l : List ℕ) → n ≤ length l → length (take n l) ≡ n
length-take zero l h = refl
length-take (suc n) [] h = absurd (omega (arith, h))
length-take (suc n) (x ∷ l) h = ap suc (length-take n l (omega (arith, h)))

length-drop : (n : ℕ) (l : List ℕ) → length (drop n l) ≡ length l - n
length-drop zero l = omega arith
length-drop (suc n) [] = omega arith
length-drop (suc n) (x ∷ l) = length-drop n l ∙ omega arith

take-append : (l r : List ℕ) → take (length l) (l ++ r) ≡ l
take-append [] r = refl
take-append (x ∷ l) r = ap (λ s. x ∷ s) (take-append l r)

drop-append : (l r : List ℕ) → drop (length l) (l ++ r) ≡ r
drop-append [] r = refl
drop-append (x ∷ l) r = drop-append l r

append_assoc : (a b c : List ℕ) → (a ++ b) ++ c ≡ a ++ (b ++ c)
append_assoc [] b c = refl
append_assoc (x ∷ a) b c = ap (λ s. x ∷ s) (append_assoc a b c)

drop-empty : (n : ℕ) → drop {A = ℕ} n [] ≡ []
drop-empty zero = refl
drop-empty (suc n) = refl

suc_plus : (a b : ℕ) → suc (a + b) ≡ suc a + b
suc_plus a b = omega arith

drop-drop : (a b : ℕ) (l : List ℕ) → drop a (drop b l) ≡ drop (b + a) l
drop-drop a zero l = ap (λ n. drop n l) (omega arith)
drop-drop a (suc b) [] = drop-empty a ∙ sym (drop-empty (suc b + a))
drop-drop a (suc b) (x ∷ l) = drop-drop a b l ∙ ap (λ n. drop n (x ∷ l)) (suc_plus b a)

take-empty : (n : ℕ) → take {A = ℕ} n [] ≡ []
take-empty zero = refl
take-empty (suc n) = refl

drop-take : (n m : ℕ) (l : List ℕ) → drop n (take m l) ≡ take (m - n) (drop n l)
drop-take zero m l = ap (λ k. take k l) (omega arith)
drop-take (suc n) zero l = ap (λ k. take k (drop (suc n) l)) (zero_less n)
  where
    zero_less : (k : ℕ) → 0 ≡ 0 - suc k
    zero_less k = omega arith
drop-take (suc n) (suc m) [] = sym (take-empty (suc m - suc n))
drop-take (suc n) (suc m) (x ∷ l) = drop-take n m l ∙ ap (λ k. take k (drop n l)) (omega arith)

split_take : (a b : ℕ) (l : List ℕ) → take (a + b) l ≡ take a l ++ take b (drop a l)
split_take zero b l = ap (λ n. take n l) (omega arith)
split_take (suc a) b [] = take-empty (suc a + b) ∙ sym (take-empty b)
split_take (suc a) b (x ∷ l) =
    ap (λ n. take n (x ∷ l)) (sym (suc_plus a b)) ∙ ap (λ s. x ∷ s) (split_take a b l)

-- The places of a buffer: an empty one starts at the front.
pub record IsBuffer (b : ConnectionBuffer) : Type 0 where
  pub begins : b.data_begin ≤ b.data_end
  pub ends : b.data_end ≤ length b.buf
  pub restarts : b.data_begin ≡ b.data_end → b.data_end ≡ 0

module _ (b : ConnectionBuffer) (ok : IsBuffer b) where
  pub length-readable : length (readable b) ≡ b.data_end - b.data_begin
  length-readable =
      length-take (b.data_end - b.data_begin) (drop b.data_begin b.buf)
        (omega (arith, ok.ends, length-drop b.data_begin b.buf))

  take-data_end : take b.data_end b.buf ≡ take b.data_begin b.buf ++ readable b
  take-data_end =
      ap (λ n. take n b.buf) (omega (arith, ok.begins))
      ∙ split_take b.data_begin (b.data_end - b.data_begin) b.buf

  behind : (x : List ℕ) → drop b.data_begin (take b.data_end b.buf ++ x) ≡ readable b ++ x
  behind x =
      ap (λ l. drop b.data_begin (l ++ x)) take-data_end
      ∙ ap (drop b.data_begin) (append_assoc (take b.data_begin b.buf) (readable b) x)
      ∙ ap (λ n. drop n (take b.data_begin b.buf ++ (readable b ++ x)))
          (sym (length-take b.data_begin b.buf (omega (arith, ok.begins, ok.ends))))
      ∙ drop-append (take b.data_begin b.buf) (readable b ++ x)

  abbrev pub with_bytes : List ℕ → ConnectionBuffer
  with_bytes bytes = record (written bytes b) { data_end = b.data_end + length bytes }

  pub readable-with_bytes : (bytes : List ℕ) → readable (with_bytes bytes) ≡ readable b ++ bytes
  readable-with_bytes bytes =
      ap (take (b.data_end + length bytes - b.data_begin)) (
        behind (bytes ++ drop (b.data_end + length bytes) b.buf)
        ∙ sym (append_assoc (readable b) bytes _))
      ∙ ap (λ n. take n ((readable b ++ bytes) ++ drop (b.data_end + length bytes) b.buf))
          (omega (arith, ok.begins, length-readable, length-append (readable b) bytes))
      ∙ take-append (readable b ++ bytes) _

  pub with_bytes-IsBuffer :
      (x : ℕ) (l : List ℕ)
      → b.data_end + length (x ∷ l) ≤ length b.buf
      → IsBuffer (with_bytes (x ∷ l))
  with_bytes-IsBuffer x l room = record {
    begins = omega (arith, ok.begins);
    ends = omega (
      arith,
      room,
      length-append (take b.data_end b.buf) ((x ∷ l) ++ drop (b.data_end + length (x ∷ l)) b.buf),
      length-append (x ∷ l) (drop (b.data_end + length (x ∷ l)) b.buf),
      length-take b.data_end b.buf ok.ends,
      length-drop (b.data_end + length (x ∷ l)) b.buf,
    );
    restarts = λ e. absurd (omega (arith, e, ok.begins));
  }

  moved-IsBuffer : IsBuffer (moved_to_front b)
  moved-IsBuffer = record {
    begins = omega arith;
    ends = omega (
      arith,
      length-readable,
      length-append (readable b) (drop (b.data_end - b.data_begin) b.buf),
    );
    restarts = λ e. sym e;
  }

  readable-moved : readable (moved_to_front b) ≡ readable b
  readable-moved =
      ap (λ n. take n (readable b ++ drop (b.data_end - b.data_begin) b.buf))
        (omega (arith, length-readable))
      ∙ take-append (readable b) (drop (b.data_end - b.data_begin) b.buf)

  length-moved : length (moved_to_front b).buf ≡ length b.buf
  length-moved = omega (
    arith,
    ok.ends,
    length-readable,
    length-append (readable b) (drop (b.data_end - b.data_begin) b.buf),
    length-drop (b.data_end - b.data_begin) b.buf,
  )

  -- The data stay, and there are as many free bytes as `writeable` says: none if the buffer is full.
  abbrev IsFree : ℕ × ConnectionBuffer → Type 0
  IsFree r =
      IsBuffer r.1
      × (readable r.1 ≡ readable b)
      × (r.1.data_end + r.0 ≤ length r.1.buf)
      × (length r.1.buf ≡ length b.buf)
      × (r.0 ≡ 0 → is_full b ≡ true)

  pub writeable-IsFree : (size : ℕ) → IsFree (writeable size b)
  unfolding writeable
  writeable-IsFree size =
      at_end (ltb (length b.buf - b.data_end) size || (length b.buf == b.data_end)) (is_full b) refl
        refl
    where
      at_end :
          (short full : Bool)
          → ltb (length b.buf - b.data_end) size || (length b.buf == b.data_end) ≡ short
          → is_full b ≡ full
          → IsFree (
              if short
              then (if full
                  then (0, b)
                  else (length b.buf - (b.data_end - b.data_begin), moved_to_front b))
              else (length b.buf - b.data_end, b))
      at_end true true s e = (ok, refl, omega (arith, ok.ends), refl, λ z. e)
      at_end true false s e = (
        moved-IsBuffer,
        readable-moved,
        omega (arith, length-moved, ok.begins, ok.ends),
        length-moved,
        λ z. absurd (ground (arith, z, e, ok.begins, ok.ends)),
      )
      at_end false full s e =
          (ok, refl, omega (arith, ok.ends), refl, λ z. absurd (ground (arith, z, s, ok.ends)))

  pub commit_write-written :
      (x : ℕ) (l : List ℕ)
      → b.data_end + length (x ∷ l) ≤ length b.buf
      → commit_write (length (x ∷ l)) (written (x ∷ l) b) ≡ (true, with_bytes (x ∷ l))
  unfolding commit_write
  commit_write-written x l room = ground (arith, (with_bytes-IsBuffer x l room).ends)

  readable-restarted :
      (n : ℕ)
      → n ≤ b.data_end - b.data_begin
      → IsBuffer (restarted (record b { data_begin = b.data_begin + n }))
        × (readable (restarted (record b { data_begin = b.data_begin + n })) ≡ drop n (readable b))
  readable-restarted n h = at_end (b.data_begin + n == b.data_end) refl
    where
      rest :
          drop n (readable b)
          ≡ take (b.data_end - (b.data_begin + n)) (drop (b.data_begin + n) b.buf)
      rest =
          drop-take n (b.data_end - b.data_begin) (drop b.data_begin b.buf)
          ∙ ap (take (b.data_end - b.data_begin - n)) (drop-drop n b.data_begin b.buf)
          ∙ ap (λ k. take k (drop (b.data_begin + n) b.buf)) (omega arith)

      at_end :
          (last : Bool)
          → b.data_begin + n == b.data_end ≡ last
          → IsBuffer (
              if last
              then record b { data_begin = 0; data_end = 0 }
              else record b { data_begin = b.data_begin + n })
            × (readable (
                  if last
                  then record b { data_begin = 0; data_end = 0 }
                  else record b { data_begin = b.data_begin + n })
                ≡ drop n (readable b))
      at_end true e = (
        record { begins = omega arith; ends = omega arith; restarts = λ f. refl },
        let no_more : b.data_end - (b.data_begin + n) ≡ 0 = ground (arith, e) in
            sym (rest ∙ ap (λ k. take k (drop (b.data_begin + n) b.buf)) no_more),
      )
      at_end false e = (
        record {
          begins = ground (arith, h, e, ok.begins);
          ends = ok.ends;
          restarts = λ f. absurd (ground (arith, e, f));
        },
        sym rest,
      )

  commit_read-restarted :
      (n : ℕ)
      → n ≤ b.data_end - b.data_begin
      → commit_read n b ≡ (true, restarted (record b { data_begin = b.data_begin + n }))
  unfolding commit_read
  commit_read-restarted n h = rw (less-false (b.data_end - b.data_begin) n h) refl
    where
      less-false : (a c : ℕ) → c ≤ a → ltb a c ≡ false
      less-false a c g = ground (arith, g)

  pub commit_read-drop :
      (n : ℕ)
      → n ≤ b.data_end - b.data_begin
      → IsBuffer (commit_read n b).1 × (readable (commit_read n b).1 ≡ drop n (readable b))
  commit_read-drop n h =
      subst (λ (r : Bool × ConnectionBuffer). IsBuffer r.1 × (readable r.1 ≡ drop n (readable b)))
        (sym (commit_read-restarted n h)) (readable-restarted n h)
