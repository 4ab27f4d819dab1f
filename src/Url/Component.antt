-- ===== src/Url/Component.antt =====
-- `urlEncode`, `urlDecode`, `toHex` and `fromHex` of the component library, in the C locale.
-- `none` is a failed assertion.
use chess_games.Prelude.{
  ==_iff, All, Bool, Bool-cases, List, Option, [], ap, arith, false, if◌then◌else◌, inl, inr, leb,
  ltb, none, not, refl, some, true, ℕ, ◌%◌, ◌&&◌, ◌*◌, ◌++◌, ◌+◌, ◌-◌, ◌/◌, ◌<◌, ◌==◌, ◌||◌, ◌∙◌,
  ◌∷◌, ◌≡◌,
}
use chess_games.Url.Http.{IsByte}

infixl 5 ◌>>=◌
abbrev ◌>>=◌ {ℓ κ} : {A : Type ℓ} {B : Type κ} → Option A → (A → Option B) → Option B
none >>= f = none
some a >>= f = f a

pub to_hex : ℕ → ℕ
to_hex x = if ltb 9 x then x + 55 else x + 48

pub from_hex : ℕ → Option ℕ
from_hex x =
    if leb b'A' x && leb x b'Z'
    then some (x - b'A' + 10)
    else if leb b'a' x && leb x b'z'
    then some (x - b'a' + 10)
    else if leb b'0' x && leb x b'9'
    then some (x - b'0')
    else none

-- `isalnum`, and the four other characters that stand for themselves.
pub is_plain : ℕ → Bool
is_plain c =
    (leb b'0' c && leb c b'9')
    || (leb b'A' c && leb c b'Z')
    || (leb b'a' c && leb c b'z')
    || (c == b'-')
    || (c == b'_')
    || (c == b'.')
    || (c == b'~')

pub encode_byte : ℕ → List ℕ
encode_byte c =
    if is_plain c
    then c ∷ []
    else if c == 32
    then b'+' ∷ []
    else b'%' ∷ to_hex (c / 16) ∷ to_hex (c % 16) ∷ []

pub url_encode : List ℕ → List ℕ
unfolding encode_byte is_plain to_hex
url_encode [] = []
url_encode (c ∷ l) = encode_byte c ++ url_encode l

-- The byte of an escape; a char keeps the low eight bits.
pub escaped_byte : ℕ → ℕ → Option ℕ
unfolding from_hex
escaped_byte a b = do high ← from_hex a; low ← from_hex b; some ((high * 16 + low) % 256)

abbrev push : ℕ → Option (List ℕ) → Option (List ℕ)
push c none = none
push c (some l) = some (c ∷ l)

pub url_decode : List ℕ → Option (List ℕ)
unfolding escaped_byte
url_decode [] = some []
url_decode (c ∷ a ∷ b ∷ l) =
    let escaped = escaped_byte a b >>= λ v. push v (url_decode l) in
    let plain = push (if c == b'+' then 32 else c) (url_decode (a ∷ b ∷ l)) in
    if not (c == b'+') && (c == b'%') then escaped else plain
url_decode (c ∷ l) =
    let plain = push (if c == b'+' then 32 else c) (url_decode l) in
    if not (c == b'+') && (c == b'%') then none else plain

decode-plain :
    (c : ℕ) (l : List ℕ)
    → (c == b'%') ≡ false
    → url_decode (c ∷ l) ≡ push (if c == b'+' then 32 else c) (url_decode l)
unfolding url_decode
decode-plain c [] h = ground arith
decode-plain c (a ∷ []) h = ground arith
decode-plain c (a ∷ b ∷ l) h = ground arith

from_hex-to_hex : (n : ℕ) → n < 16 → from_hex (to_hex n) ≡ some n
unfolding from_hex to_hex
from_hex-to_hex n h = ground arith

escaped_byte-to_hex : (c : ℕ) → IsByte c → escaped_byte (to_hex (c / 16)) (to_hex (c % 16)) ≡ some c
unfolding escaped_byte
escaped_byte-to_hex c h =
    rw (from_hex-to_hex (c / 16) (omega arith), from_hex-to_hex (c % 16) (omega arith))
      (ap some (omega arith))

decode-escaped :
    (c : ℕ) (l : List ℕ)
    → IsByte c
    → url_decode (b'%' ∷ to_hex (c / 16) ∷ to_hex (c % 16) ∷ l) ≡ push c (url_decode l)
unfolding url_decode
decode-escaped c l h = rw (escaped_byte-to_hex c h)

plain_byte : (c : ℕ) → is_plain c ≡ true → ((c == b'%') ≡ false) × ((c == b'+') ≡ false)
unfolding is_plain
plain_byte c h = ground arith

space_is_not_plain : is_plain 32 ≡ false
unfolding is_plain
space_is_not_plain = refl

decode-encode_byte :
    (c : ℕ) (l : List ℕ) → IsByte c → url_decode (encode_byte c ++ l) ≡ push c (url_decode l)
unfolding encode_byte
decode-encode_byte c l h = elim (Bool-cases (is_plain c)) [
  | inl e ↦ let (percent, plus) = plain_byte c e in rw e (decode-plain c l percent ∙ rw plus)
  | inr e ↦ elim (Bool-cases (c == 32)) [
    | inl space ↦ rw ((==_iff c 32).0 space, space_is_not_plain) (decode-plain b'+' l refl)
    | inr other ↦ rw (e, other) (decode-escaped c l h)
  ]
]

-- Decoding gives back every string of bytes that was encoded, and no assertion fails.
pub component_url_decode-url_encode :
    (s : List ℕ) → All IsByte s → url_decode (url_encode s) ≡ some s
unfolding url_encode
component_url_decode-url_encode [] h = unfold url_decode in refl
component_url_decode-url_encode (c ∷ l) h =
    decode-encode_byte c (url_encode l) h.0 ∙ ap (push c) (component_url_decode-url_encode l h.1)
