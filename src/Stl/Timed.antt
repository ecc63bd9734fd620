-- ===== src/Stl/Timed.antt =====
-- std::multimap from times to entries: the pairs in the order of their times.
use beryldb.Prelude.{ℕ, ◌≤◌, Bool, Option, none, some, List, [], ◌∷◌, ltb, if◌then◌else◌}
use mathlib.Core.Option

module _ {ℓ} {A : Type ℓ} where
  -- `insert`: behind the pairs with the same time.
  unfoldable pub insert : ℕ → A → List (ℕ × A) → List (ℕ × A)
  insert time a [] = (time, a) ∷ []
  insert time a ((t, b) ∷ l) =
      let rest = insert time a l in if ltb time t then (time, a) ∷ (t, b) ∷ l else (t, b) ∷ rest

  -- The first pair whose entry passes the test.
  unfoldable pub find_first : (A → Bool) → List (ℕ × A) → Option (ℕ × A)
  find_first p [] = none
  find_first p ((t, a) ∷ l) = let rest = find_first p l in if p a then some (t, a) else rest

  -- The pairs without that one, `none` where there is none.
  unfoldable pub erase_found : (A → Bool) → List (ℕ × A) → Option (List (ℕ × A))
  erase_found p [] = none
  erase_found p ((t, a) ∷ l) =
      let rest = Option.map (λ l'. (t, a) ∷ l') (erase_found p l) in if p a then some l else rest

  -- The pairs whose entries fail the test, and those that pass.
  unfoldable pub erase_if : (A → Bool) → List (ℕ × A) → List (ℕ × A)
  erase_if p [] = []
  erase_if p ((t, a) ∷ l) = let rest = erase_if p l in if p a then rest else (t, a) ∷ rest

  unfoldable pub select_if : (A → Bool) → List (ℕ × A) → List A
  select_if p [] = []
  select_if p ((t, a) ∷ l) = let rest = select_if p l in if p a then a ∷ rest else rest

  -- The entries before the first time that is not below `limit`.
  unfoldable pub take_before : ℕ → List (ℕ × A) → List A
  take_before limit [] = []
  take_before limit ((t, a) ∷ l) =
      let rest = take_before limit l in if ltb t limit then a ∷ rest else []

  -- The entries at all times below `limit`.
  unfoldable pub below : ℕ → List (ℕ × A) → List A
  below limit [] = []
  below limit ((t, a) ∷ l) = let rest = below limit l in if ltb t limit then a ∷ rest else rest

  abbrev pub From : ℕ → List (ℕ × A) → Type ℓ
  From time [] = Unit
  From time ((t, a) ∷ l) = (time ≤ t) × From time l

  abbrev pub InOrder : List (ℕ × A) → Type ℓ
  InOrder [] = Unit
  InOrder ((t, a) ∷ l) = From t l × InOrder l
