-- ===== src/Room/Registry/Ids.antt =====
-- The ids that `getRoomId` gives.
use chess_games.Room.Registry.{
  Entry, Registry, find_room, get_room_id, get_room_id_in, id_loop, is_none, next_id,
}
use chess_games.Prelude.{
  All, Bool, Bool-cases, List, Option, [], ap, arith, false, if◌then◌else◌, inl, inr, leb, length,
  ltb, none, not, refl, some, suc, true, zero, ℕ, ◌+◌, ◌-◌, ◌<◌, ◌==◌, ◌||◌, ◌∙◌, ◌∷◌, ◌≡◌, ◌≢◌,
  ◌≤◌,
}

-- An id as the lobby gives them, and one that no room has.
abbrev pub IsId : ℕ → Type 0
IsId id = (100001 ≤ id) × (id ≤ 999999)

abbrev pub IsFree : List Entry → ℕ → Type 0
IsFree rooms id = find_room id rooms ≡ none

-- How many steps of `next_id` lead to `t`.
way : ℕ → ℕ → ℕ
way id t = if leb id t then t - id else (999999 - id) + 1 + (t - 100001)

way-lt : (id t : ℕ) → IsId id → IsId t → way id t < 899999
unfolding way
way-lt id t h k = ground arith

next_id-eq : (id : ℕ) → IsId id → next_id id ≡ (if leb 999999 id then 100001 else id + 1)
unfolding next_id
next_id-eq id h = ground arith

next_id-IsId : (id : ℕ) → IsId id → IsId (next_id id)
next_id-IsId id h = ground (arith, next_id-eq id h)

way-next_id : (id t n : ℕ) → IsId id → IsId t → id ≢ t → way id t < suc n → way (next_id id) t < n
unfolding way
way-next_id id t n h k ne w = ground (arith, next_id-eq id h)

is_none-eq : (o : Option Entry) → is_none o ≡ true → o ≡ none
is_none-eq none h = refl
is_none-eq (some e) h = cc

-- The test of the loop.
taken : List Entry → ℕ → Bool
taken rooms id = (id == 0) || not (is_none (find_room id rooms))

not-taken : (rooms : List Entry) (id : ℕ) → taken rooms id ≡ false → IsFree rooms id
unfolding taken
not-taken rooms id h = is_none-eq (find_room id rooms) (ground (arith, h))

taken-other :
    (rooms : List Entry) (id t : ℕ) → IsId id → IsFree rooms t → taken rooms id ≡ true → id ≢ t
unfolding taken
taken-other rooms id t h free e same =
    let stays : is_none (find_room id rooms) ≡ true =
      ap (λ i. is_none (find_room i rooms)) same ∙ ap is_none free in
    ground (arith, e, stays, h.0)

abbrev Ends : List Entry → Option (ℕ × List ℕ) → Type 0
Ends rooms o = (r : ℕ × List ℕ) × (o ≡ some r) × IsFree rooms r.0 × IsId r.0

walk :
    (rooms : List Entry) (n id t : ℕ)
    → IsId id
    → IsId t
    → IsFree rooms t
    → way id t < n
    → Ends rooms (id_loop n rooms id [])
unfolding id_loop taken
walk rooms zero id t h k free w = absurd (omega (arith, w))
walk rooms (suc n) id t h k free w = elim (Bool-cases (taken rooms id)) [
  | inl e ↦ rw e (
      walk rooms n (next_id id) t (next_id-IsId id h) k free
        (way-next_id id t n h k (taken-other rooms id t h free e) w))
  | inr e ↦ rw e ((id, []), refl, not-taken rooms id e, h)
]

loop-Ends :
    (rooms : List Entry) (ids : List ℕ) (n id t : ℕ)
    → All IsId ids
    → IsId id
    → IsId t
    → IsFree rooms t
    → length ids + 899999 ≤ n
    → Ends rooms (id_loop n rooms id ids)
unfolding id_loop taken
loop-Ends rooms [] n id t a h k free w =
    walk rooms n id t h k free (omega (arith, way-lt id t h k, w))
loop-Ends rooms (i ∷ ids) zero id t a h k free w = absurd (omega (arith, w))
loop-Ends rooms (i ∷ ids) (suc n) id t a h k free w = elim (Bool-cases (taken rooms id)) [
  | inl e ↦ rw e (loop-Ends rooms ids n i t a.1 a.0 k free (omega (arith, w)))
  | inr e ↦ rw e ((id, i ∷ ids), refl, not-taken rooms id e, h)
]

within :
    (rooms : List Entry) (ids : List ℕ) (fuel first t : ℕ)
    → IsId first
    → All IsId ids
    → length ids ≤ 1000
    → IsId t
    → IsFree rooms t
    → length ids + 899999 ≤ fuel
    → Ends rooms (get_room_id_in fuel rooms first ids)
unfolding get_room_id_in
within rooms [] fuel first t h a few k free w = loop-Ends rooms [] fuel first t a h k free w
within rooms (i ∷ ids) fuel first t h a few k free w =
    let short : ltb 1000 (length (i ∷ ids)) ≡ false = ground (arith, few) in
    rw short (loop-Ends rooms (i ∷ ids) fuel first t a h k free w)

-- While some id is free and at most 1000 have expired, the loop for an id ends within one step for
-- each expired id and one for each of the 899999 ids there are, and the id it gives is free.
pub get_room_id-IsFree :
    (reg : Registry) (fuel first t : ℕ)
    → IsId first
    → All IsId reg.expired_ids
    → length reg.expired_ids ≤ 1000
    → IsId t
    → IsFree reg.rooms t
    → length reg.expired_ids + 899999 ≤ fuel
    → (r : ℕ × List ℕ) × (get_room_id fuel first reg ≡ some r) × IsFree reg.rooms r.0 × IsId r.0
unfolding get_room_id
get_room_id-IsFree reg fuel first t h a few k free w =
    within reg.rooms reg.expired_ids fuel first t h a few k free w
