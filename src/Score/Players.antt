-- ===== src/Score/Players.antt =====
-- The players of a round and the first loop of `calcRound`, which judges their cards.
-- int32_t values are integers, and a uint32_t is its bit pattern.
use chess_games.Prelude.{
  Bool, List, Option, [], drop, false, if◌then◌else◌, length, ltb, some, take, true, ℕ, ◌%◌, ◌++◌,
  ◌-◌, ◌==◌, ◌^◌, ◌∷◌,
}
use chess_games.Prelude.Int.{negsuc, pos, ℤ}
use chess_games.Deck.{BrandInfo, Card, are_cards}
use chess_games.Deck.Sort.{sort}
use chess_games.Deck.Ghost.{brand_info, non_ghosts}
use chess_games.Deck.Special.{SpecialBrand, g13_special_brand}

abbrev pub u32_mod : ℕ
u32_mod = 2 ^ 32

unfoldable pub to_u32 : ℤ → ℕ
to_u32 (pos n) = n % u32_mod
to_u32 (negsuc n) = u32_mod - 1 - n % u32_mod

unfoldable pub to_i32 : ℕ → ℤ
to_i32 n = if ltb n (2 ^ 31) then pos n else negsuc (u32_mod - 1 - n)

-- `-x` on a uint32_t.
unfoldable pub neg_u32 : ℕ → ℕ
neg_u32 n = (u32_mod - n) % u32_mod

-- What `calcRound` reads of a player.
pub record Player : Type 0 where
  pub cuid : ℕ
  pub cards_spec_brand : Bool
  pub cards : List Card

-- An entry of `losers`: the points, and whether the loser was shot.
pub record Loss : Type 0 where
  pub price : ℤ
  pub shot : ℕ

-- The map `losers`, in the order of its keys.
abbrev pub Losers : Type 0
Losers = List (ℕ × Loss)

pub record PlayerData : Type 0 where
  pub cuid : ℕ
  pub cards : List Card
  pub dun0 : BrandInfo
  pub dun1 : BrandInfo
  pub dun2 : BrandInfo
  pub spec : SpecialBrand
  pub dun_prize0 : ℤ
  pub dun_prize1 : ℤ
  pub dun_prize2 : ℤ
  pub prize : ℤ
  pub losers : Losers
  pub quan_lei_da : Bool
  pub has_ma_pai : Bool

unfoldable pub has_ma_pai_card : List Card → ℕ → Bool
has_ma_pai_card [] ma_pai = false
has_ma_pai_card (c ∷ l) ma_pai = if c == ma_pai then true else has_ma_pai_card l ma_pai

-- What `brandInfo` leaves in the array: sorted, unless it holds a ghost.
unfoldable pub arranged : List Card → List Card
arranged c = if length (non_ghosts c) == length c then sort c else c

infixl 5 ◌>>=◌ ◌>>◌
abbrev pub ◌>>=◌ {ℓ κ} : {A : Type ℓ} {B : Type κ} → Option A → (A → Option B) → Option B
Option.none >>= f = Option.none
some a >>= f = f a

abbrev pub ◌>>◌ {ℓ} : {B : Type ℓ} → Option (Unit {0}) → Option B → Option B
m >> k = m >>= λ _. k

-- An assertion that fails ends the program.
abbrev pub assert : Bool → Option (Unit {0})
assert true = some tt
assert false = Option.none

-- The cards whose rank is asked for: all for a special brand, and else those that are no ghosts.
abbrev pub ranked : Player → List Card
ranked p = if p.cards_spec_brand then p.cards else non_ghosts p.cards

-- The first loop of `calcRound`, on one player. The assertion of `rank` is tested first, for all
-- calls of it.
unfoldable pub evaluate : ℕ → Player → Option PlayerData
unfolding arranged has_ma_pai_card are_cards
evaluate ma_pai p = do
  assert (are_cards (ranked p))
  let head = take 3 p.cards
  let middle = take 5 (drop 3 p.cards)
  let tail = take 5 (drop 8 p.cards)
  d0 ← brand_info head
  d1 ← brand_info middle
  d2 ← brand_info tail
  let cards = arranged head ++ (arranged middle ++ arranged tail)
  some (record {
    cuid = p.cuid;
    cards = cards;
    dun0 = d0;
    dun1 = d1;
    dun2 = d2;
    spec = if p.cards_spec_brand then g13_special_brand cards d1.b d2.b else SpecialBrand.none;
    dun_prize0 = pos 0;
    dun_prize1 = pos 0;
    dun_prize2 = pos 0;
    prize = pos 0;
    losers = [];
    quan_lei_da = false;
    has_ma_pai = has_ma_pai_card cards ma_pai;
  })

unfoldable pub evaluate_all : ℕ → List Player → Option (List PlayerData)
evaluate_all ma_pai [] = some []
evaluate_all ma_pai (p ∷ ps) = do d ← evaluate ma_pai p; ds ← evaluate_all ma_pai ps; some (d ∷ ds)
