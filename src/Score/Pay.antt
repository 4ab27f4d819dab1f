-- ===== src/Score/Pay.antt =====
-- The last loop of `calcRound`: the points change hands.
-- `quanLeiDa` is left set if every entry of `losers` is a shot.
use chess_games.Prelude.{
  Bool, List, Option, [], false, get_elem?, if◌then◌else◌, length, ltb, set, some, suc, true, zero,
  ℕ, ◌&&◌, ◌+◌, ◌==◌, ◌||◌, ◌∷◌,
}
use chess_games.Prelude.Int.{neg_ℤ, pos, ℤ, ◌*ℤ◌, ◌+ℤ◌}
use chess_games.Score.Players.{Losers, Loss, Player, PlayerData, evaluate_all, ◌>>=◌}
use chess_games.Score.Compare.{outer_loop}

unfoldable pub all_shot : Losers → Bool
all_shot [] = true
all_shot ((k, v) ∷ m) = if v.shot == 0 then false else all_shot m

unfoldable pub is_quan_lei_da : Bool → ℕ → ℕ → PlayerData → Bool
unfolding all_shot
is_quan_lei_da enabled players size winner =
    enabled && ltb 2 players && (length winner.losers + 1 == size) && all_shot winner.losers

-- The points that an entry of the winner's `losers` moves.
unfoldable pub final_prize : ℕ → ℤ → Bool → Bool → Loss → ℤ
final_prize da_qiang shoot_add_point ma_pai quan_lei_da v =
    let shot =
      if ltb 0 v.shot
      then (if da_qiang == 1 then v.price +ℤ shoot_add_point else v.price *ℤ pos 2)
      else v.price in
    let doubled = if ma_pai then shot *ℤ pos 2 else shot in
    if quan_lei_da then doubled *ℤ pos 2 else doubled

-- `datas[i].prize += p`.
unfoldable pub add_prize : ℕ → ℤ → List PlayerData → List PlayerData
add_prize i p [] = []
add_prize zero p (d ∷ ds) = record d { prize = d.prize +ℤ p } ∷ ds
add_prize (suc i) p (d ∷ ds) = d ∷ add_prize i p ds

abbrev pub has_ma_pai_at : List PlayerData → ℕ → Bool
has_ma_pai_at datas i = elim (get_elem? datas i) [ Option.none ↦ false | some d ↦ d.has_ma_pai ]

-- The loop over the `losers` of the winner at `d`, with `winner.quanLeiDa`.
unfoldable pub pay_losers : ℕ → ℤ → ℕ → Bool → Losers → List PlayerData → List PlayerData
unfolding final_prize add_prize
pay_losers da_qiang add d quan_lei_da [] datas = datas
pay_losers da_qiang add d quan_lei_da ((k, v) ∷ m) datas =
    let p =
      final_prize da_qiang add (has_ma_pai_at datas d || has_ma_pai_at datas k) quan_lei_da v in
    pay_losers da_qiang add d quan_lei_da m (add_prize k (neg_ℤ p) (add_prize d p datas))

-- The loop over the winners from `d` on, with `left` rounds to go.
unfoldable pub pay_loop : ℕ → ℤ → Bool → ℕ → ℕ → List PlayerData → List PlayerData
unfolding pay_losers is_quan_lei_da
pay_loop da_qiang add enabled zero d datas = datas
pay_loop da_qiang add enabled (suc left) d datas =
    pay_loop da_qiang add enabled left (d + 1) (elim (get_elem? datas d) [
      | Option.none ↦ datas
      | some winner ↦
          let quan = is_quan_lei_da enabled (length datas) (length datas) winner in
          pay_losers da_qiang add d quan winner.losers
            (set datas d (record winner { quan_lei_da = quan }))
    ])

-- Everything after the first loop of `calcRound`.
unfoldable pub settle : ℕ → ℤ → Bool → List PlayerData → List PlayerData
unfolding outer_loop pay_loop
settle da_qiang shoot_add_point enabled datas =
    let compared = outer_loop da_qiang (length datas) 0 datas in
    pay_loop da_qiang shoot_add_point enabled (length compared) 0 compared

-- `calcRound`; `shoot_add_point` is a value of the game's configuration.
unfoldable pub calc_round : List Player → ℕ → ℕ → ℤ → Bool → Option (List PlayerData)
unfolding evaluate_all settle
calc_round players da_qiang ma_pai shoot_add_point enabled = do
  datas ← evaluate_all ma_pai players
  some (settle da_qiang shoot_add_point enabled datas)
