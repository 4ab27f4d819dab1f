-- ===== src/Lobby/Week.antt =====
-- The counts of a client's history.
use chess_games.Prelude.{
  All, Bool, List, Option, [], ap, arith, false, if◌then◌else◌, length, none, not, refl, some,
  subst, suc, sym, take, true, zero, ℕ, ◌++◌, ◌+◌, ◌∙◌, ◌∷◌, ◌≡◌, ◌≤◌,
}
use chess_games.Prelude.Int.{eqb_ℤ, int_laws, pos, ℤ, ◌+ℤ◌, ◌-ℤ◌}
use chess_games.Lobby.History.{
  DayRank, Detail, G13His, after_leave_room, begin_of_day, counted, day_closed, days_apart,
  forget_days, in_same_day, new_day, pushed,
}

unfoldable pub sum_rank : List DayRank → ℤ
sum_rank [] = pos 0
sum_rank (d ∷ l) = d.rank +ℤ sum_rank l

unfoldable pub sum_game : List DayRank → ℤ
sum_game [] = pos 0
sum_game (d ∷ l) = d.game +ℤ sum_game l

-- The week is today and the days before that are kept, and 50 games are kept at most.
pub record IsCounted (h : G13His) : Type 0 where
  pub rank : h.week_rank ≡ h.today_rank +ℤ sum_rank h.his_days
  pub game : h.week_game ≡ h.today_game +ℤ sum_game h.his_days
  pub few : length h.details ≤ 50

-- A day leaves the sum.
less-sum : (w t d s : ℤ) → w ≡ t +ℤ (d +ℤ s) → w -ℤ d ≡ t +ℤ s
less-sum w t d s e = ap (λ x. x -ℤ d) e ∙ omega int_laws

-- Today joins the days before.
more-sum : (w t s : ℤ) → w ≡ t +ℤ s → w ≡ pos 0 +ℤ (s +ℤ (t +ℤ pos 0))
more-sum w t s e = e ∙ omega int_laws

plus-sum : (w t s r : ℤ) → w ≡ t +ℤ s → w +ℤ r ≡ (t +ℤ r) +ℤ s
plus-sum w t s r e = ap (λ x. x +ℤ r) e ∙ omega int_laws

sum_rank-snoc :
    (l : List DayRank) (d : DayRank) → sum_rank (l ++ d ∷ []) ≡ sum_rank l +ℤ (d.rank +ℤ pos 0)
unfolding sum_rank
sum_rank-snoc [] d = omega int_laws
sum_rank-snoc (x ∷ l) d = ap (λ s. x.rank +ℤ s) (sum_rank-snoc l d) ∙ omega int_laws

sum_game-snoc :
    (l : List DayRank) (d : DayRank) → sum_game (l ++ d ∷ []) ≡ sum_game l +ℤ (d.game +ℤ pos 0)
unfolding sum_game
sum_game-snoc [] d = omega int_laws
sum_game-snoc (x ∷ l) d = ap (λ s. x.game +ℤ s) (sum_game-snoc l d) ∙ omega int_laws

if-IsCounted :
    (b : Bool) (x y : G13His) → IsCounted x → IsCounted y → IsCounted (if b then x else y)
if-IsCounted true x y one two = one
if-IsCounted false x y one two = two

module _ (clock : ℕ → ℕ) (t : ℕ) where
  forget_days-IsCounted :
      (l : List DayRank) (h : G13His)
      → IsCounted (record h { his_days = l })
      → IsCounted (forget_days clock t l h)
  unfolding sum_rank sum_game
  forget_days-IsCounted [] h ok = ok
  forget_days-IsCounted (d ∷ l) h ok =
      if-IsCounted (eqb_ℤ (days_apart clock d.time t) (pos 0)) (record h { his_days = d ∷ l }) _ ok
        (forget_days-IsCounted l
          (record h { week_rank = h.week_rank -ℤ d.rank; week_game = h.week_game -ℤ d.game })
          (record {
            rank = less-sum h.week_rank h.today_rank d.rank (sum_rank l) ok.rank;
            game = less-sum h.week_game h.today_game d.game (sum_game l) ok.game;
            few = ok.few;
          }))

  day_closed-IsCounted : (h : G13His) → IsCounted h → IsCounted (day_closed t h)
  day_closed-IsCounted h ok = record {
    rank =
        more-sum h.week_rank h.today_rank (sum_rank h.his_days) ok.rank
        ∙ ap (λ s. pos 0 +ℤ s) (sym (sum_rank-snoc h.his_days _));
    game =
        more-sum h.week_game h.today_game (sum_game h.his_days) ok.game
        ∙ ap (λ s. pos 0 +ℤ s) (sym (sum_game-snoc h.his_days _));
    few = ok.few;
  }

  new_day-IsCounted : (h : G13His) (l : List Detail) → IsCounted h → IsCounted (new_day clock t h l)
  new_day-IsCounted h [] ok = ok
  new_day-IsCounted h (d ∷ l) ok =
      if-IsCounted (not (in_same_day clock d.time t)) _ h
        (day_closed-IsCounted (forget_days clock t h.his_days h)
          (forget_days-IsCounted h.his_days h ok))
        ok

length-take-le : {A : Type 0} (n : ℕ) (l : List A) → length (take n l) ≤ n
length-take-le zero l = omega arith
length-take-le (suc n) [] = omega arith
length-take-le (suc n) (x ∷ l) = omega (arith, length-take-le n l)

pushed-few : (d : Detail) (l : List Detail) → length l ≤ 50 → length (pushed d l) ≤ 50
pushed-few d l h = ground (arith, h, length-take-le (length l) (d ∷ l))

counted-IsCounted : (d : Detail) (h : G13His) → IsCounted h → IsCounted (counted d h)
counted-IsCounted d h ok = record {
  rank = plus-sum h.week_rank h.today_rank (sum_rank h.his_days) d.rank ok.rank;
  game = plus-sum h.week_game h.today_game (sum_game h.his_days) (pos 1) ok.game;
  few = pushed-few d h.details ok.few;
}

-- After a game, as before it, the counts of the week are those of today and of the days that are
-- kept, and at most 50 games are.
pub after_leave_room-IsCounted :
    (clock : ℕ → ℕ) (d : Option Detail) (h : G13His)
    → IsCounted h
    → IsCounted (after_leave_room clock d h)
unfolding after_leave_room
after_leave_room-IsCounted clock none h ok = ok
after_leave_room-IsCounted clock (some d) h ok =
    counted-IsCounted d (new_day clock d.time h h.details)
      (new_day-IsCounted clock d.time h h.details ok)

-- The day of `t` began at least 24 hours before that of `s`.
abbrev pub IsEarlier : (ℕ → ℕ) → ℕ → ℕ → Type 0
IsEarlier clock s t = begin_of_day clock t + 86400 ≤ begin_of_day clock s

earlier-days_apart :
    (clock : ℕ → ℕ) (s t : ℕ) → IsEarlier clock s t → eqb_ℤ (days_apart clock t s) (pos 0) ≡ false
unfolding days_apart
earlier-days_apart clock s t h = ground (arith, h)

earlier-in_same_day :
    (clock : ℕ → ℕ) (s t : ℕ) → IsEarlier clock s t → in_same_day clock t s ≡ false
unfolding in_same_day
earlier-in_same_day clock s t h = ground (arith, h)

-- Every day before leaves the week.
forget_days-All :
    (clock : ℕ → ℕ) (t : ℕ) (l : List DayRank) (h : G13His)
    → All (λ (d : DayRank). IsEarlier clock t d.time) l
    → h.week_rank ≡ h.today_rank +ℤ sum_rank l
    → ((forget_days clock t l h).his_days ≡ [])
      × ((forget_days clock t l h).today_rank ≡ h.today_rank)
      × ((forget_days clock t l h).today_game ≡ h.today_game)
      × ((forget_days clock t l h).week_rank ≡ h.today_rank)
unfolding sum_rank
forget_days-All clock t [] h all e = (refl, refl, refl, e ∙ omega int_laws)
forget_days-All clock t (d ∷ l) h (first, rest) e = rw (earlier-days_apart clock t d.time first) (
    forget_days-All clock t l
      (record h { week_rank = h.week_rank -ℤ d.rank; week_game = h.week_game -ℤ d.game }) rest
      (less-sum h.week_rank h.today_rank d.rank (sum_rank l) e))

new_day-closed :
    (clock : ℕ → ℕ) (t : ℕ) (h : G13His) (last : Detail) (l : List Detail)
    → h.details ≡ last ∷ l
    → IsEarlier clock t last.time
    → new_day clock t h h.details ≡ day_closed t (forget_days clock t h.his_days h)
new_day-closed clock t h last l e first =
    ap (new_day clock t h) e ∙ rw (earlier-in_same_day clock t last.time first) refl

-- A client of which the last game was at least a day ago, and whose days before that are kept began
-- earlier still, keeps one day after the next game: that of the last game. So the week is that day
-- and today, however many days the week had.
pub after_leave_room-two_days :
    (clock : ℕ → ℕ) (d : Detail) (h : G13His) (last : Detail) (l : List Detail)
    → IsCounted h
    → h.details ≡ last ∷ l
    → IsEarlier clock d.time last.time
    → All (λ (x : DayRank). IsEarlier clock d.time x.time) h.his_days
    → ((after_leave_room clock (some d) h).his_days
        ≡ record { rank = h.today_rank; game = h.today_game; time = d.time } ∷ [])
      × ((after_leave_room clock (some d) h).week_rank ≡ h.today_rank +ℤ d.rank)
unfolding after_leave_room
after_leave_room-two_days clock d h last l ok e first all =
    subst
      (λ (n : G13His).
        (n.his_days ≡ record { rank = h.today_rank; game = h.today_game; time = d.time } ∷ [])
        × (n.week_rank +ℤ d.rank ≡ h.today_rank +ℤ d.rank))
      (sym (new_day-closed clock d.time h last l e first))
      (goes (forget_days clock d.time h.his_days h)
        (forget_days-All clock d.time h.his_days h all ok.rank))
  where
    goes :
        (n : G13His)
        → (n.his_days ≡ [])
          × (n.today_rank ≡ h.today_rank)
          × (n.today_game ≡ h.today_game)
          × (n.week_rank ≡ h.today_rank)
        → ((day_closed d.time n).his_days
            ≡ record { rank = h.today_rank; game = h.today_game; time = d.time } ∷ [])
          × ((day_closed d.time n).week_rank +ℤ d.rank ≡ h.today_rank +ℤ d.rank)
    goes n (none_left, rank, game, week) = (rw (none_left, rank, game) refl, rw week refl)
