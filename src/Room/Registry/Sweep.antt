-- ===== src/Room/Registry/Sweep.antt =====
-- One run of the timer over the table of rooms.
use chess_games.Score.Total.{some_inj}
use chess_games.Room.Registry.{Entry, Registry, swept, timer_exec_all, timer_loop}
use chess_games.Room.Timer.{timer_exec}
use chess_games.Room.Game.{Env}
use chess_games.Prelude.{
  Bool, List, Option, [], ap, arith, count, count-append, false, if◌then◌else◌, length,
  length-append, none, refl, some, subst, sym, true, ℕ, ◌++◌, ◌+◌, ◌==◌, ◌||◌, ◌∷◌, ◌≡◌,
}
use chess_games.Score.Players.{◌>>=◌}
use chess_games.Room.Deal.{Room}

-- How often the table has the id.
abbrev pub id_count : ℕ → List Entry → ℕ
id_count y [] = 0
id_count y (e ∷ l) = (if y == e.fixed.id then 1 else 0) + id_count y l

abbrev pub any_expired : List Entry → Bool
any_expired [] = false
any_expired (e ∷ l) = e.room.expired || any_expired l

-- The id that the loop erases, as often as it does.
abbrev erased : ℕ → Option ℕ → ℕ
erased y none = 0
erased y (some id) = if y == id then 1 else 0

abbrev is_erased : Option ℕ → Bool
is_erased none = false
is_erased (some id) = true

-- What is left of `l`, and what went.
record IsSwept (l : List Entry) (t : List Entry × Option ℕ) : Type 0 where
  same_ids : (y : ℕ) → id_count y t.0 + erased y t.1 ≡ id_count y l
  one : is_erased t.1 ≡ any_expired l

data Sweeps (l : List Entry) : Option (List Entry × Option ℕ) → Type 0 where
  fails : Sweeps l none
  sweeps : {t : List Entry × Option ℕ} → IsSwept l t → Sweeps l (some t)

kept :
    (e : Entry) (l : List Entry) (o : Option Room) (rest : Option (List Entry × Option ℕ))
    → e.room.expired ≡ false
    → Sweeps l rest
    → Sweeps (e ∷ l) (o >>= λ r. rest >>= λ t. some (record e { room = r } ∷ t.0, t.1))
kept e l none rest f s = fails
kept e l (some r) none f s = fails
kept e l (some r) (some t) f (sweeps h) =
    sweeps (record { same_ids = λ y. omega (arith, h.same_ids y); one = rw f h.one })

gone :
    (e : Entry) (l : List Entry)
    → e.room.expired ≡ true
    → Sweeps (e ∷ l) (some (l, some e.fixed.id))
gone e l f =
    sweeps (record { same_ids = λ y. omega arith; one = sym (ap (λ b. b || any_expired l) f) })

if-Sweeps :
    (b : Bool) (l : List Entry) (x y : Option (List Entry × Option ℕ))
    → (b ≡ true → Sweeps l x)
    → (b ≡ false → Sweeps l y)
    → Sweeps l (if b then x else y)
if-Sweeps true l x y h k = h refl
if-Sweeps false l x y h k = k refl

timer_loop-Sweeps : (env : Env) (l : List Entry) → Sweeps l (timer_loop env l)
unfolding timer_loop
timer_loop-Sweeps env [] = sweeps (record { same_ids = λ y. refl; one = refl })
timer_loop-Sweeps env (e ∷ l) = if-Sweeps e.room.expired (e ∷ l) _ _ (gone e l) (λ f.
    kept e l (timer_exec (record env { is_card_mode = e.fixed.is_card_mode }) e.room)
      (timer_loop env l) f (timer_loop-Sweeps env l))

id_count-length :
    (y : ℕ) (l : List ℕ) (id : ℕ) → count y (l ++ id ∷ []) ≡ count y l + (if y == id then 1 else 0)
id_count-length y l id = omega (arith, count-append y l (id ∷ []))

record IsTick (reg next : Registry) : Type 0 where
  conserved :
      (y : ℕ)
      → id_count y next.rooms + count y next.expired_ids
        ≡ id_count y reg.rooms + count y reg.expired_ids
  erases :
      length next.expired_ids ≡ length reg.expired_ids + (if any_expired reg.rooms then 1 else 0)

swept-IsTick :
    (reg next : Registry) (o : Option (List Entry × Option ℕ))
    → Sweeps reg.rooms o
    → swept reg o ≡ some next
    → IsTick reg next
swept-IsTick reg next none fails h = cc
swept-IsTick reg next (some (l, none)) (sweeps k) h =
    subst (IsTick reg) (some_inj _ next h) (record {
      conserved = λ y. omega (arith, k.same_ids y);
      erases = rw (sym k.one) (omega arith);
    })
swept-IsTick reg next (some (l, some id)) (sweeps k) h =
    subst (IsTick reg) (some_inj _ next h) (record {
      conserved = λ y. omega (arith, k.same_ids y, id_count-length y reg.expired_ids id);
      erases = rw (sym k.one, length-append reg.expired_ids (id ∷ [])) refl;
    })

-- A run of the timer over the table loses no id: each stays with its rooms or is kept as expired.
-- It erases one room if any has expired, however many have, and none otherwise.
pub timer_exec_all-ids :
    (env : Env) (reg next : Registry)
    → timer_exec_all env reg ≡ some next
    → ((y : ℕ)
        → id_count y next.rooms + count y next.expired_ids
          ≡ id_count y reg.rooms + count y reg.expired_ids)
      × (length next.expired_ids
          ≡ length reg.expired_ids + (if any_expired reg.rooms then 1 else 0))
unfolding timer_exec_all
timer_exec_all-ids env reg next h =
    let k = swept-IsTick reg next (timer_loop env reg.rooms) (timer_loop-Sweeps env reg.rooms) h in
    (k.conserved, k.erases)
