-- ===== src/Room/Balance.antt =====
-- The points of a game, from round to round (`trySettleGame`, water13.cpp).
use chess_games.Score.Round.{IsPlayable, calc_round-total}
use chess_games.Score.Total.{total}
use chess_games.Prelude.{
  All, Bool-cases, List, Option, [], ap, arith, false, if◌then◌else◌, inl, inr, length, length-map,
  ltb, map, not, refl, some, subst, suc, sym, true, ℕ, ◌++◌, ◌<◌, ◌==◌, ◌∙◌, ◌∷◌, ◌≡◌, ◌≢◌, ◌⊎◌,
}
use chess_games.Prelude.Int.{int_laws, pos, ℤ, ◌+ℤ◌}
use chess_games.Score.Players.{PlayerData}
use chess_games.Room.Deal.{GameStatus, Room, Seat, play, settle, settle_all}
use chess_games.Room.Settle.{
  FinalCount, after_round, all_brought, all_final_count, count_player, count_round, count_rounds,
  is_play, keep_cards, no_count, player_of, settle_all_game, take_points, try_settle_all,
  try_settle_game, with_points,
}
use chess_games.Room.Game.{Env}

-- The points of all players.
abbrev pub total_rank : List Seat → ℤ
total_rank [] = pos 0
total_rank (s ∷ l) = s.rank +ℤ total_rank l

-- The points of the final settlement.
abbrev pub total_count : List FinalCount → ℤ
total_count [] = pos 0
total_count (c ∷ l) = c.rank +ℤ total_count l

-- A round in which nothing is won that is not lost, among `n` players.
pub record IsEven (n : ℕ) (r : List PlayerData) : Type 0 where
  pub size : length r ≡ n
  pub sum : total r ≡ pos 0

abbrev pub IsBalanced : Room → Type 0
IsBalanced room = All (IsEven (length room.players)) room.settle_data

total_rank-take_points :
    (l : List Seat) (r : List PlayerData)
    → length r ≡ length l
    → total_rank (take_points l r) ≡ total_rank l +ℤ total r
unfolding take_points
total_rank-take_points [] [] h = omega int_laws
total_rank-take_points [] (d ∷ r) h = absurd (omega (arith, h))
total_rank-take_points (s ∷ l) [] h = absurd (omega (arith, h))
total_rank-take_points (s ∷ l) (d ∷ r) h =
    rw (total_rank-take_points l r (omega (arith, h))) (omega int_laws)

length-take_points : (l : List Seat) (r : List PlayerData) → length (take_points l r) ≡ length l
unfolding take_points
length-take_points [] r = refl
length-take_points (s ∷ l) [] = refl
length-take_points (s ∷ l) (d ∷ r) = ap suc (length-take_points l r)

total-keep_cards :
    (l : List Seat) (r : List PlayerData) → length r ≡ length l → total (keep_cards l r) ≡ total r
unfolding keep_cards
total-keep_cards [] r h = refl
total-keep_cards (s ∷ l) [] h = refl
total-keep_cards (s ∷ l) (d ∷ r) h = rw (total-keep_cards l r (omega (arith, h))) refl

length-keep_cards :
    (l : List Seat) (r : List PlayerData) → length r ≡ length l → length (keep_cards l r) ≡ length l
unfolding keep_cards
length-keep_cards [] r h = h
length-keep_cards (s ∷ l) [] h = absurd (omega (arith, h))
length-keep_cards (s ∷ l) (d ∷ r) h = omega (arith, length-keep_cards l r (omega (arith, h)))

count_round-total :
    (r : List PlayerData) (l : List FinalCount)
    → length r ≡ length l
    → (total_count (count_round r l) ≡ total_count l +ℤ total r)
      × (length (count_round r l) ≡ length l)
unfolding count_round count_player
count_round-total [] [] h = (omega int_laws, refl)
count_round-total [] (c ∷ l) h = absurd (omega (arith, h))
count_round-total (d ∷ r) [] h = absurd (omega (arith, h))
count_round-total (d ∷ r) (c ∷ l) h =
    let (t, n) = count_round-total r l (omega (arith, h)) in
    (rw t (omega int_laws), omega (arith, n))

count_rounds-total :
    (rs : List (List PlayerData)) (l : List FinalCount)
    → All (IsEven (length l)) rs
    → total_count (count_rounds rs l) ≡ total_count l
unfolding count_rounds
count_rounds-total [] l h = refl
count_rounds-total (r ∷ rs) l h =
    let (t, n) = count_round-total r l h.0.size in
    count_rounds-total rs (count_round r l) (subst (λ k. All (IsEven k) rs) (sym n) h.1)
    ∙ (t ∙ rw h.0.sum (omega int_laws))

total_count-none :
    (f : Seat → ℕ) (l : List Seat) → total_count (map (λ (s : Seat). no_count (f s)) l) ≡ pos 0
total_count-none f [] = refl
total_count-none f (s ∷ l) = rw (total_count-none f l) (omega int_laws)

-- The final counts of the game so far cancel each other.
all_final_count-total :
    (room : Room) (rs : List (List PlayerData))
    → room.settle_data ≡ rs
    → IsBalanced room
    → total_count (all_final_count room) ≡ pos 0
unfolding all_final_count
all_final_count-total room [] e h =
    subst
      (λ d.
        total_count (elim d [
          | [] ↦ map (λ (s : Seat). no_count s.cuid) room.players
          | r ∷ l ↦ count_rounds (r ∷ l) (map (λ (s : Seat). no_count 0) room.players)
        ])
        ≡ pos 0)
      (sym e) (total_count-none (λ s. s.cuid) room.players)
all_final_count-total room (r ∷ rs) e h =
    let size : length room.players ≡ length (map (λ (s : Seat). no_count 0) room.players) =
      sym (length-map room.players (λ (s : Seat). no_count 0)) in
    subst
      (λ d.
        All (IsEven (length room.players)) d
        → total_count (elim d [
          | [] ↦ map (λ (s : Seat). no_count s.cuid) room.players
          | r ∷ l ↦ count_rounds (r ∷ l) (map (λ (s : Seat). no_count 0) room.players)
        ])
          ≡ pos 0)
      (sym e)
      (λ k.
        count_rounds-total (r ∷ rs) (map (λ (s : Seat). no_count 0) room.players)
          (subst (λ n. All (IsEven n) (r ∷ rs)) size k)
        ∙ total_count-none (λ s. 0) room.players)
      h

All-append {ℓ} : {A : Type ℓ} (P : A → Type 0) (l m : List A) → All P l → All P m → All P (l ++ m)
All-append P [] m h k = k
All-append P (x ∷ l) m h k = (h.0, All-append P l m h.1 k)

-- The room after a round and before the next one.
abbrev pub after_points : Env → Room → List PlayerData → Room
after_points env room r = record room {
  players = take_points room.players r;
  settle_data = room.settle_data ++ keep_cards room.players r ∷ [];
  status = settle;
  settle_time = env.now;
}

after_points-IsBalanced :
    (env : Env) (room : Room) (r : List PlayerData)
    → IsBalanced room
    → length r ≡ length room.players
    → total r ≡ pos 0
    → IsBalanced (after_points env room r)
after_points-IsBalanced env room r h size sum =
    let same : length room.players ≡ length (take_points room.players r) =
      sym (length-take_points room.players r) in
    subst (λ n. All (IsEven n) (room.settle_data ++ keep_cards room.players r ∷ [])) same
      (All-append (IsEven (length room.players)) room.settle_data _ h (
        record {
          size = length-keep_cards room.players r size;
          sum = total-keep_cards room.players r size ∙ sum;
        },
        tt,
      ))

more_rounds :
    (env : Env) (room : Room)
    → env.is_card_mode ≡ true
    → room.round < room.attr.rounds
    → after_round env.is_card_mode env room
      ≡ some (record room { status = settle; settle_time = env.now })
unfolding after_round try_settle_all
more_rounds env room cards more =
    let less : ltb room.round room.attr.rounds ≡ true = ground (arith, more) in
    ap (λ b. after_round b env room) cards ∙ rw less refl

last_round :
    (env : Env) (room : Room)
    → env.is_card_mode ≡ true
    → ltb room.round room.attr.rounds ≡ false
    → room.attr.payor ≢ 2
    → after_round env.is_card_mode env room
      ≡ some (record room { status = settle_all; settle_time = env.now; settle_all_time = env.now })
unfolding after_round try_settle_all settle_all_game
last_round env room cards last payor =
    let other : (room.attr.payor == 2) ≡ false = ground (arith, payor) in
    ap (λ b. after_round b env room) cards ∙ rw (last, other) refl

-- What a round leaves, as it goes on in the status `st`.
abbrev pub IsSettled : Env → Room → GameStatus → Option Room → Type 0
IsSettled env room st o =
    (next : Room) × (o ≡ some next)
    × (next.status ≡ st)
    × (total_rank next.players ≡ total_rank room.players)
    × IsBalanced next
    × (total_count (all_final_count next) ≡ pos 0)

scored-IsSettled :
    (env : Env) (room : Room) (r : List PlayerData) (st : GameStatus) (t : ℕ) (o : Option Room)
    → IsBalanced room
    → length r ≡ length room.players
    → total r ≡ pos 0
    → o ≡ some (record (after_points env room r) { status = st; settle_all_time = t })
    → IsSettled env room st o
scored-IsSettled env room r st t o h long sum e =
    let next : Room = record (after_points env room r) { status = st; settle_all_time = t } in
    let balanced = after_points-IsBalanced env room r h long sum in
    (
      next,
      e,
      refl,
      total_rank-take_points room.players r long ∙ rw sum (omega int_laws),
      balanced,
      all_final_count-total next next.settle_data refl balanced,
    )

after_round-IsSettled :
    (env : Env) (room : Room) (r : List PlayerData)
    → env.is_card_mode ≡ true
    → (room.round < room.attr.rounds) ⊎ (room.attr.payor ≢ 2)
    → IsBalanced room
    → length r ≡ length room.players
    → total r ≡ pos 0
    → IsSettled env room
        (if ltb room.round room.attr.rounds then settle else settle_all)
        (with_points env room (some r))
after_round-IsSettled env room r cards ends h long sum =
    let mid : Room = record room {
      players = take_points room.players r;
      settle_data = room.settle_data ++ keep_cards room.players r ∷ [];
    } in
    elim (Bool-cases (ltb room.round room.attr.rounds)) [
      | inl f ↦ rw f (
          scored-IsSettled env room r settle room.settle_all_time _ h long sum
            (more_rounds env mid cards (ground (arith, f))))
      | inr f ↦ rw f (
          scored-IsSettled env room r settle_all env.now _ h long sum
            (last_round env mid cards f (not_paid ends f)))
    ]
  where
    not_paid :
        (room.round < room.attr.rounds) ⊎ (room.attr.payor ≢ 2)
        → ltb room.round room.attr.rounds ≡ false
        → room.attr.payor ≢ 2
    not_paid (inl less) f = absurd (ground (arith, less, f))
    not_paid (inr other) f = other

-- Once all players have brought out cards and are connected, the round is settled, and the game too
-- in its last round, which here is not one that the winners pay for. Each row of five is to have a
-- card that is no ghost, and no hand that is taken for a special brand a ghost. What the round gives
-- the players adds up to nothing, and so do the counts of the game so far, the final ones after the
-- last round.
pub try_settle_game-balance :
    (env : Env) (room : Room)
    → env.is_card_mode ≡ true
    → room.status ≡ play
    → all_brought env.online room.players ≡ true
    → All IsPlayable (map player_of room.players)
    → (room.round < room.attr.rounds) ⊎ (room.attr.payor ≢ 2)
    → IsBalanced room
    → IsSettled env room
        (if ltb room.round room.attr.rounds then settle else settle_all)
        (try_settle_game env room)
unfolding try_settle_game
try_settle_game-balance env room cards playing brought_all playable ends h =
    let (r, scored, size, sum) =
      calc_round-total (map player_of room.players) room.attr.da_qiang room.attr.ma_pai
        env.shoot_add_point true playable in
    let long : length r ≡ length room.players = size ∙ length-map room.players player_of in
    let on : not (is_play room.status) ≡ false = ap (λ st. not (is_play st)) playing in
    rw (on, brought_all, scored) (after_round-IsSettled env room r cards ends h long sum)
