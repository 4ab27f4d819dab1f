-- ===== src/Room/Create.antt =====
-- The tests of a request for a room (`Water13_Card::proto_C_G13_CreateGame`) and the deck that a
-- round of the room is dealt from (`Water13::tryStartRound`). The numbers of a request are not
-- negative here; the tests turn a negative size or suit down in the source.
use chess_games.Prelude.{
  Bool, List, [], false, get_or, if◌then◌else◌, leb, length, ltb, not, suc, true, zero, ℕ, ◌%◌,
  ◌&&◌, ◌*◌, ◌++◌, ◌+◌, ◌-◌, ◌==◌, ◌||◌, ◌∷◌,
}
use chess_games.Deck.{Card}

-- What the tests read of `C_G13_CreateGame`.
pub record Request : Type 0 where
  pub play_type : ℕ
  pub player_size : ℕ
  pub rounds : ℕ
  pub payor : ℕ
  pub da_qiang : ℕ
  pub ma_pai : ℕ
  pub with_ghost : Bool
  pub suits : List ℕ

-- What they read of the configuration: `pricePerPlayer` and `mapaiPattern`.
pub record Config : Type 0 where
  pub price_per_player : List (ℕ × ℕ)
  pub ma_pai_pattern : List ℕ

unfoldable pub has_price : ℕ → List (ℕ × ℕ) → Bool
has_price rounds [] = false
has_price rounds ((k, v) ∷ m) = if k == rounds then true else has_price rounds m

unfoldable pub find : ℕ → List ℕ → Bool
find x [] = false
find x (y ∷ l) = if y == x then true else find x l

-- `std::sort` of numbers.
unfoldable pub insert_up : ℕ → List ℕ → List ℕ
insert_up x [] = x ∷ []
insert_up x (y ∷ l) = if ltb y x then y ∷ insert_up x l else x ∷ y ∷ l

unfoldable pub sort_up : List ℕ → List ℕ
unfolding insert_up
sort_up [] = []
sort_up (x ∷ l) = insert_up x (sort_up l)

-- The loop of `Water13::isSubset` over what is left of the arrays.
unfoldable pub suits_subset_loop : List ℕ → List ℕ → Bool
suits_subset_loop v1 [] = true
suits_subset_loop [] (y ∷ v2) = false
suits_subset_loop (x ∷ v1) (y ∷ v2) =
    let skip = suits_subset_loop v1 (y ∷ v2) in
    let both = suits_subset_loop v1 v2 in if ltb x y then skip else if x == y then both else false

unfoldable pub suits_subset : List ℕ → List ℕ → Bool
unfolding sort_up suits_subset_loop
suits_subset v1 v2 =
    if ltb (length v1) (length v2) then false else suits_subset_loop (sort_up v1) (sort_up v2)

abbrev pub all_suits : List ℕ
all_suits = 3 ∷ 2 ∷ 1 ∷ 0 ∷ []

-- The tests on the suits that a room adds; 0 if they pass.
unfoldable pub check_suits : ℕ → List ℕ → ℕ
unfolding suits_subset
check_suits player_size suits =
    if ltb 4 (length suits)
    then 9
    else if not (ltb 0 (length suits))
    then 0
    else if ltb 4 player_size && ltb (length suits) (player_size - 4)
    then 10
    else if leb player_size 4 && not (length suits == 1)
    then 11
    else if not (suits_subset all_suits suits)
    then 12
    else 0

-- `attrCheckResult`.
unfoldable pub check_request : Config → Request → ℕ
unfolding has_price find check_suits
check_request cfg r =
    if not (r.play_type == 0) && not (r.play_type == 1) && not (r.play_type == 2)
    then 1
    else if ltb r.player_size 2 || ltb 8 r.player_size
    then 2
    else if not (has_price r.rounds cfg.price_per_player)
    then 4
    else if not (r.payor == 0) && not (r.payor == 1) && not (r.payor == 2)
    then 5
    else if not (r.da_qiang == 0) && not (r.da_qiang == 1)
    then 6
    else if ltb 0 r.ma_pai && not (find r.ma_pai cfg.ma_pai_pattern)
    then 7
    else check_suits r.player_size r.suits

-- The `n` numbers from `k` on.
unfoldable pub range : ℕ → ℕ → List Card
range k zero = []
range k (suc n) = k ∷ range (k + 1) n

unfoldable pub suits_cards : List ℕ → List Card
unfolding range
suits_cards [] = []
suits_cards (s ∷ l) = range (s * 13 + 1) 13 ++ suits_cards l

-- The loop from player `p` on, with `left` players to go.
unfoldable pub extra_loop : ℕ → ℕ → List Card
unfolding range
extra_loop p zero = []
extra_loop p (suc left) =
    range (get_or all_suits ((p - 1) % 4) 0 * 13 + 1) 13 ++ extra_loop (p + 1) left

unfoldable pub make_deck : Bool → ℕ → List ℕ → List Card
unfolding range suits_cards extra_loop
make_deck with_ghost player_size suits =
    range 1 (if with_ghost then 54 else 52)
    ++ ((if with_ghost && (player_size == 8) then 53 ∷ 54 ∷ [] else [])
        ++ (if ltb 0 (length suits) then suits_cards suits else extra_loop 5 (player_size - 4)))
