-- ===== src/FastMap/Runs.antt =====
-- The changes of a `FastTravelUnorderedMap` by its clients, in any order.
use chess_games.FastMap.Refines.{
  Models, added-Models, erase-Models, insert-new, insert-old, no_items-Models, with_item, without,
}
use chess_games.Prelude.{List, Option, [], ap, none, refl, some, subst, sym, ℕ, ◌∙◌, ◌∷◌, ◌≡◌}
use chess_games.FastMap.{FastMap, added, ensure, ensured, erase, find, insert, no_items}

pub data Change (A : Type 0) : Type 0 where
  inserts : ℕ → A → Change A
  ensures : ℕ → A → Change A
  erases : ℕ → Change A

unfoldable pub change : {A : Type 0} → Change A → FastMap A → Option (FastMap A)
change (inserts k v) q = some (insert k v q).1
change (ensures k blank) q = ensure k blank q
change (erases k) q = erase k q

abbrev pub changed : {A : Type 0} → List (Change A) → Option (FastMap A) → Option (FastMap A)
changed l none = none
changed [] (some q) = some q
changed (c ∷ l) (some q) = changed l (change c q)

-- The same on a map from keys to values.
abbrev pub if_new : {A : Type 0} → ℕ → A → (ℕ → Option A) → Option A → ℕ → Option A
if_new k v f none = with_item k v f
if_new k v f (some w) = f

unfoldable pub change_map : {A : Type 0} → Change A → (ℕ → Option A) → ℕ → Option A
change_map (inserts k v) f = if_new k v f (f k)
change_map (ensures k blank) f = if_new k blank f (f k)
change_map (erases k) f = without k f

abbrev pub changed_map : {A : Type 0} → List (Change A) → (ℕ → Option A) → ℕ → Option A
changed_map [] f = f
changed_map (c ∷ l) f = changed_map l (change_map c f)

abbrev Follows : {A : Type 0} → Option (FastMap A) → (ℕ → Option A) → Type 0
Follows r f = (next : FastMap _) × (r ≡ some next) × Models next f

module _ {A : Type 0} (q : FastMap A) (f : ℕ → Option A) (ok : Models q f) where
  insert-Models :
      (k : ℕ) (v : A) (o : Option A) → f k ≡ o → Models (insert k v q).1 (if_new k v f o)
  insert-Models k v none e =
      subst (λ r. Models r.1 (with_item k v f)) (sym (insert-new q f ok k v e))
        (added-Models q f ok k v e)
  insert-Models k v (some w) e = subst (λ r. Models r.1 f) (sym (insert-old q f ok k v w e)) ok

  ensure-Follows :
      (k : ℕ) (v : A) (o : Option A) → f k ≡ o → Follows (ensure k v q) (if_new k v f o)
  unfolding ensure
  ensure-Follows k v none e =
      (added k v q, ap (ensured k v q) (ok.finds k ∙ ap some e), added-Models q f ok k v e)
  ensure-Follows k v (some w) e = (q, ap (ensured k v q) (ok.finds k ∙ ap some e), ok)

  change-Follows : (c : Change A) → Follows (change c q) (change_map c f)
  unfolding change change_map
  change-Follows (inserts k v) = ((insert k v q).1, refl, insert-Models k v (f k) refl)
  change-Follows (ensures k v) = ensure-Follows k v (f k) refl
  change-Follows (erases k) = erase-Models q f ok k

after :
    {A : Type 0} (l : List (Change A)) (r : Option (FastMap A)) (f g : ℕ → Option A)
    → Follows r f
    → ((next : FastMap A) → Models next f → Follows (changed l (some next)) g)
    → Follows (changed l r) g
after l r f g (next, e, ok) go = subst (λ r'. Follows (changed l r') g) (sym e) (go next ok)

changed-Follows :
    {A : Type 0} (l : List (Change A)) (q : FastMap A) (f : ℕ → Option A)
    → Models q f
    → Follows (changed l (some q)) (changed_map l f)
changed-Follows [] q f ok = (q, refl, ok)
changed-Follows (c ∷ l) q f ok =
    after l (change c q) (change_map c f) (changed_map l (change_map c f)) (change-Follows q f ok c)
      (λ next more. changed-Follows l next (change_map c f) more)

-- However items are inserted, made by `operator[]` and erased, no exception is thrown, and `find`
-- shows what the same changes make of an empty map from keys to values.
pub changed-Models :
    {A : Type 0} (l : List (Change A))
    → (next : FastMap A) × (changed l (some no_items) ≡ some next)
      × ((k : ℕ) → find k next ≡ some (changed_map l (λ j. none) k))
changed-Models l = shows (changed-Follows l no_items (λ j. none) no_items-Models)
  where
    shows :
        Follows (changed l (some no_items)) (changed_map l (λ j. none))
        → (next : FastMap _) × (changed l (some no_items) ≡ some next)
          × ((k : ℕ) → find k next ≡ some (changed_map l (λ j. none) k))
    shows (next, e, ok) = (next, e, ok.finds)
