-- ===== src/Net/Frames.antt =====
-- `parse` puts a packet together from pieces.
use mathlib.Core.List.{append_assoc, append-nil}
use native.Mathlib.Nat.{zero-add}
use chess_games.Prelude.{
  Bool-cases, List, [], ap, arith, false, if◌then◌else◌, inl, inr, length, length-append, ltb,
  ltb→lt, refl, some, suc, sym, take, true, zero, ℕ, ◌%◌, ◌++◌, ◌+◌, ◌-◌, ◌<◌, ◌==◌, ◌∙◌, ◌∷◌, ◌≡◌,
  ◌≤◌,
}
use chess_games.Net.Tcp.{
  content_size, fill_body, is_complete, parse, parse_first, read_size, set_content, size_mod,
  try_parse, write_size,
}
use chess_games.Net.Packet.{Packet, append}

read_size-write_size : (n : ℕ) (l : List ℕ) → n < size_mod → read_size (write_size n ++ l) ≡ n
unfolding read_size write_size
read_size-write_size n l h = omega arith

length-write_size : (n : ℕ) (l : List ℕ) → length (write_size n ++ l) ≡ 4 + length l
unfolding write_size
length-write_size n l = omega arith

take_all {ℓ} : {A : Type ℓ} (n : ℕ) (xs : List A) → length xs ≤ n → take n xs ≡ xs
take_all zero [] h = refl
take_all zero (x ∷ xs) h = absurd (omega arith)
take_all (suc n) [] h = refl
take_all (suc n) (x ∷ xs) h = ap (λ l. x ∷ l) (take_all n xs (omega arith))

take-append {ℓ} : {A : Type ℓ} (n : ℕ) (xs ys : List A) → length xs ≡ n → take n (xs ++ ys) ≡ xs
take-append zero [] ys h = refl
take-append zero (x ∷ xs) ys h = absurd (omega arith)
take-append (suc n) [] ys h = absurd (omega arith)
take-append (suc n) (x ∷ xs) ys h = ap (λ l. x ∷ l) (take-append n xs ys (omega arith))

-- A packet whose header says `n` and that has the content `c1` so far.
abbrev pub started : ℕ → List ℕ → Packet
started n c1 = write_size n ++ c1

deficiency :
    (n : ℕ) (c1 : List ℕ)
    → n + 4 < size_mod
    → length c1 ≤ n
    → ((read_size (started n c1) + 4) % size_mod + size_mod - length (started n c1)) % size_mod
      ≡ n - length c1
deficiency n c1 h le =
    rw (read_size-write_size n c1 (omega arith), length-write_size n c1) (omega arith)

abbrev pub taken : ℕ → List ℕ → List ℕ → ℕ
taken n c1 buf = if ltb (n - length c1) (length buf) then n - length c1 else length buf

fill_body-started :
    (n : ℕ) (c1 buf : List ℕ)
    → n + 4 < size_mod
    → length c1 ≤ n
    → fill_body (started n c1) 0 buf ≡ (started n (c1 ++ take (taken n c1 buf) buf), taken n c1 buf)
unfolding fill_body append
fill_body-started n c1 buf h le =
    rw (deficiency n c1 h le, append_assoc (write_size n) c1 (take (taken n c1 buf) buf), zero-add)

incomplete :
    (n : ℕ) (c1 : List ℕ) → n < size_mod → length c1 < n → is_complete (started n c1) ≡ false
unfolding is_complete content_size
incomplete n c1 h lt = rw (read_size-write_size n c1 h, length-write_size n c1) (ground arith)

complete : (n : ℕ) (c1 : List ℕ) → n < size_mod → n ≤ length c1 → is_complete (started n c1) ≡ true
unfolding is_complete content_size
complete n c1 h lt = rw (read_size-write_size n c1 h, length-write_size n c1) (ground arith)

has_header : (k : ℕ) → ((4 + k == 0) ≡ false) × (ltb (4 + k) 4 ≡ false)
has_header k = ground arith

-- More bytes for a started packet: it takes them up to the size of the content, and none behind.
pub parse-started :
    (n : ℕ) (c1 buf : List ℕ)
    → n + 4 < size_mod
    → length c1 < n
    → parse (started n c1) buf ≡ (started n (c1 ++ take (taken n c1 buf) buf), taken n c1 buf)
unfolding parse
parse-started n c1 buf h lt =
    let (nonzero, long) = has_header (length c1) in
    rw (incomplete n c1 (omega arith) lt, length-write_size n c1, nonzero, long)
      (fill_body-started n c1 buf h (omega arith))

take-started : (n k : ℕ) (c1 : List ℕ) → take (4 + k) (started n c1) ≡ started n (take k c1)
unfolding write_size
take-started n k c1 = let e : 4 + k ≡ suc (suc (suc (suc k))) = omega arith in rw e

first_length :
    (n k : ℕ)
    → n + 4 < size_mod
    → (if ltb (4 + k) ((n + 4) % size_mod) then 4 + k else (n + 4) % size_mod)
      ≡ 4 + (if ltb (n - 0) k then n - 0 else k)
first_length n k h = ground arith

-- The first bytes of a packet, its header among them: it takes them up to its size.
pub parse-first :
    (n : ℕ) (c1 : List ℕ)
    → n + 4 < size_mod
    → parse [] (started n c1) ≡ (started n (take (taken n [] c1) c1), 4 + taken n [] c1)
unfolding parse parse_first is_complete
parse-first n c1 h = rw (
  read_size-write_size n c1 (omega arith),
  length-write_size n c1,
  (has_header (length c1)).1,
  first_length n (length c1) h,
  take-started n (taken n [] c1) c1,
)

-- The bytes come in pieces, and each is handed to `parse`.
abbrev pub feed : Packet → List (List ℕ) → Packet
feed m [] = m
feed m (b ∷ bs) = feed (parse m b).0 bs

parse-done :
    (n : ℕ) (c b : List ℕ) → n < size_mod → length c ≡ n → (parse (started n c) b).0 ≡ started n c
unfolding parse
parse-done n c b h e = rw (complete n c h (omega arith))

abbrev pub concat : List (List ℕ) → List ℕ
concat [] = []
concat (b ∷ bs) = b ++ concat bs

taken_all : (n : ℕ) (c1 b : List ℕ) → length c1 + length b ≤ n → taken n c1 b ≡ length b
taken_all n c1 b h = ground arith

parse-whole :
    (n : ℕ) (c1 b : List ℕ)
    → n + 4 < size_mod
    → length c1 < n
    → length c1 + length b ≤ n
    → (parse (started n c1) b).0 ≡ started n (c1 ++ b)
parse-whole n c1 b h lt le =
    ap (λ (r : Packet × ℕ). r.0) (parse-started n c1 b h lt)
    ∙ rw (taken_all n c1 b le, take_all (length b) b (omega arith))

nil-length {ℓ} : {A : Type ℓ} (xs : List A) → length xs ≡ 0 → xs ≡ []
nil-length [] h = refl
nil-length (x ∷ xs) h = absurd (omega arith)

feed-started :
    (n : ℕ) (c1 : List ℕ) (bs : List (List ℕ))
    → n + 4 < size_mod
    → length c1 + length (concat bs) ≡ n
    → feed (started n c1) bs ≡ started n (c1 ++ concat bs)
feed-started n c1 [] h e = ap (started n) (sym (append-nil c1))
feed-started n c1 (b ∷ bs) h e = elim (Bool-cases (ltb (length c1) n)) [
  | inl lt ↦
      let sizes : length (c1 ++ b) ≡ length c1 + length b = length-append c1 b in
      let rest : length (b ++ concat bs) ≡ length b + length (concat bs) =
        length-append b (concat bs) in
      rw (parse-whole n c1 b h (ltb→lt _ _ lt) (omega arith)) (
        feed-started n (c1 ++ b) bs h (omega arith)
        ∙ ap (started n) (append_assoc c1 b (concat bs)))
  | inr ge ↦
      let rest : length (b ++ concat bs) ≡ length b + length (concat bs) =
        length-append b (concat bs) in
      let least : n ≤ length c1 = ground arith in
      rw (parse-done n c1 b (omega arith) (omega arith), nil-length b (omega arith))
        (feed-started n c1 bs h (omega arith))
]

first-whole :
    (n : ℕ) (c1 : List ℕ)
    → n + 4 < size_mod
    → length c1 ≤ n
    → (parse [] (started n c1)).0 ≡ started n c1
first-whole n c1 h le =
    ap (λ (r : Packet × ℕ). r.0) (parse-first n c1 h)
    ∙ rw (taken_all n [] c1 (omega arith), take_all (length c1) c1 (omega arith))

first-exact :
    (content rest : List ℕ)
    → length content + 4 < size_mod
    → (parse [] (started (length content) (content ++ rest))).0 ≡ started (length content) content
first-exact content rest h =
    let n : ℕ = length content in
    let size : length (content ++ rest) ≡ n + length rest = length-append content rest in
    let all : taken n [] (content ++ rest) ≡ n = ground arith in
    ap (λ (r : Packet × ℕ). r.0) (parse-first n (content ++ rest) h)
    ∙ rw (all, take-append n content rest refl)

-- A packet's bytes, cut anywhere behind its header into pieces that are handed to `parse` in turn,
-- give the packet.
pub feed-set_content :
    (content c1 : List ℕ) (bs : List (List ℕ))
    → length content + 4 < size_mod
    → content ≡ c1 ++ concat bs
    → feed [] ((write_size (length content) ++ c1) ∷ bs) ≡ set_content content
unfolding set_content
feed-set_content content c1 bs h e =
    let n : ℕ = length content in
    let sizes : n ≡ length c1 + length (concat bs) = ap length e ∙ length-append c1 (concat bs) in
    ap (λ m. feed m bs) (first-whole n c1 h (omega arith))
    ∙ (feed-started n c1 bs h (sym sizes) ∙ ap (started n) (sym e))

-- A packet's bytes with any bytes behind them are read as that packet, which holds the content.
pub try_parse-set_content :
    (content rest : List ℕ)
    → length content + 4 < size_mod
    → (try_parse (set_content content ++ rest) ≡ some (set_content content))
      × (content_size (set_content content) ≡ length content)
unfolding try_parse set_content content_size
try_parse-set_content content rest h =
    let n : ℕ = length content in
    (
      rw (
        append_assoc (write_size n) content rest,
        first-exact content rest h,
        complete n content (omega arith) (omega arith),
      ),
      rw (length-write_size n content, (has_header n).1)
          (read_size-write_size n content (omega arith)),
    )
