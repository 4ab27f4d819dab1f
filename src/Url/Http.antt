-- ===== src/Url/Http.antt =====
-- `UrlCode`: `urlEncode`, `urlDecode` and `php_htoi`, in the C locale.
use chess_games.Prelude.{
  ==_iff, All, Bool, Bool-cases, List, [], ap, arith, false, get_or, if◌then◌else◌, inl, inr, leb,
  ltb, not, refl, true, ℕ, ◌%◌, ◌&&◌, ◌*◌, ◌++◌, ◌+◌, ◌-◌, ◌/◌, ◌<◌, ◌==◌, ◌||◌, ◌∙◌, ◌∷◌, ◌≡◌,
}
use chess_games.Prelude.Bytes.{holds_below, holds_below-test}

abbrev pub IsByte : ℕ → Type 0
IsByte c = c < 256

is_upper : ℕ → Bool
is_upper c = leb b'A' c && leb c b'Z'

pub is_xdigit : ℕ → Bool
is_xdigit c = (leb b'0' c && leb c b'9') || (leb b'A' c && leb c b'F') || (leb b'a' c && leb c b'f')

-- One digit of `php_htoi`, whose callers pass hexadecimal digits.
hex_value : ℕ → ℕ
unfolding is_upper
hex_value d =
    let c = if is_upper d then d + 32 else d in
    if leb b'0' c && leb c b'9' then c - b'0' else c + 10 - b'a'

pub php_htoi : ℕ → ℕ → ℕ
unfolding hex_value
php_htoi a b = hex_value a * 16 + hex_value b

-- The table "0123456789ABCDEF".
pub hex : ℕ → ℕ
hex n =
    get_or
      (b'0' ∷ b'1' ∷ b'2' ∷ b'3' ∷ b'4' ∷ b'5' ∷ b'6' ∷ b'7' ∷ b'8' ∷ b'9' ∷ b'A' ∷ b'B' ∷ b'C'
        ∷ b'D' ∷ b'E' ∷ b'F' ∷ [])
      n 0

-- The test of the second branch of `urlEncode`.
pub must_escape : ℕ → Bool
must_escape c =
    (ltb c b'0' && not (c == b'-') && not (c == b'.'))
    || (ltb c b'A' && ltb b'9' c)
    || (ltb b'Z' c && ltb c b'a' && not (c == b'_'))
    || ltb b'z' c

pub encode_byte : ℕ → List ℕ
encode_byte c =
    if c == 32
    then b'+' ∷ []
    else if must_escape c
    then b'%' ∷ hex (c / 16) ∷ hex (c % 16) ∷ []
    else c ∷ []

pub url_encode : List ℕ → List ℕ
unfolding encode_byte must_escape hex
url_encode [] = []
url_encode (c ∷ l) = encode_byte c ++ url_encode l

pub url_decode : List ℕ → List ℕ
unfolding is_xdigit php_htoi
url_decode [] = []
url_decode (c ∷ a ∷ b ∷ l) =
    let escaped = php_htoi a b ∷ url_decode l in
    let plain = (if c == b'+' then 32 else c) ∷ url_decode (a ∷ b ∷ l) in
    if not (c == b'+') && (c == b'%') && is_xdigit a && is_xdigit b then escaped else plain
url_decode (c ∷ l) = (if c == b'+' then 32 else c) ∷ url_decode l

decode-plain :
    (c : ℕ) (l : List ℕ)
    → (c == b'%') ≡ false
    → url_decode (c ∷ l) ≡ (if c == b'+' then 32 else c) ∷ url_decode l
unfolding url_decode
decode-plain c [] h = refl
decode-plain c (a ∷ []) h = refl
decode-plain c (a ∷ b ∷ l) h = ground arith

abbrev digit_test : ℕ → Bool
digit_test n = is_xdigit (hex n) && (hex_value (hex n) == n)

digits_table : holds_below digit_test 16 ≡ true
unfolding is_xdigit hex hex_value holds_below
digits_table = refl

hex_digit : (n : ℕ) → n < 16 → (is_xdigit (hex n) ≡ true) × (hex_value (hex n) ≡ n)
hex_digit n h = ground (arith, holds_below-test digit_test 16 n h digits_table)

decode-hex :
    (a b : ℕ) (l : List ℕ)
    → is_xdigit a ≡ true
    → is_xdigit b ≡ true
    → url_decode (b'%' ∷ a ∷ b ∷ l) ≡ php_htoi a b ∷ url_decode l
unfolding url_decode
decode-hex a b l h k = rw (h, k)

htoi-hex : (c : ℕ) → IsByte c → php_htoi (hex (c / 16)) (hex (c % 16)) ≡ c
unfolding php_htoi
htoi-hex c h =
    rw ((hex_digit (c / 16) (omega arith)).1, (hex_digit (c % 16) (omega arith)).1) (omega arith)

decode-escaped :
    (c : ℕ) (l : List ℕ)
    → IsByte c
    → url_decode (b'%' ∷ hex (c / 16) ∷ hex (c % 16) ∷ l) ≡ c ∷ url_decode l
decode-escaped c l h =
    decode-hex (hex (c / 16)) (hex (c % 16)) l (hex_digit (c / 16) (omega arith)).0
      (hex_digit (c % 16) (omega arith)).0
    ∙ ap (λ v. v ∷ url_decode l) (htoi-hex c h)

plain_byte : (c : ℕ) → must_escape c ≡ false → ((c == b'%') ≡ false) × ((c == b'+') ≡ false)
unfolding must_escape
plain_byte c h = ground arith

decode-encode_byte :
    (c : ℕ) (l : List ℕ) → IsByte c → url_decode (encode_byte c ++ l) ≡ c ∷ url_decode l
unfolding encode_byte
decode-encode_byte c l h = elim (Bool-cases (c == 32)) [
  | inl space ↦ rw ((==_iff c 32).0 space) (decode-plain b'+' l refl)
  | inr other ↦ elim (Bool-cases (must_escape c)) [
    | inl e ↦ rw (other, e) (decode-escaped c l h)
    | inr e ↦
        let (percent, plus) = plain_byte c e in rw (other, e) (decode-plain c l percent ∙ rw plus)
  ]
]

-- Decoding gives back every string of bytes that was encoded.
pub url_decode-url_encode : (s : List ℕ) → All IsByte s → url_decode (url_encode s) ≡ s
unfolding url_encode
url_decode-url_encode [] h = unfold url_decode in refl
url_decode-url_encode (c ∷ l) h =
    decode-encode_byte c (url_encode l) h.0 ∙ ap (λ r. c ∷ r) (url_decode-url_encode l h.1)
