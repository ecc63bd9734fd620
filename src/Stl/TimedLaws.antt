-- ===== src/Stl/TimedLaws.antt =====
-- What the operations of a multimap of times do: order, lookups and counts.
use beryldb.Prelude.{
  ℕ, suc, ◌+◌, ◌≤◌, ◌≡◌, refl, Bool, true, false, none, some, List, [], ◌∷◌, ltb, arith,
  if◌then◌else◌, Bool-cases, Option-cases, inl, inr,
}
use beryldb.Stl.Timed.{insert, find_first, erase_found, erase_if, take_before, below, From, InOrder}

module _ {ℓ} {A : Type ℓ} where
  From-trans : (s t : ℕ) (l : List (ℕ × A)) → s ≤ t → From t l → From s l
  From-trans s t [] h f = tt
  From-trans s t ((u, a) ∷ l) h f = (omega arith, From-trans s t l h f.1)

  From-insert :
      (s time : ℕ) (a : A) (l : List (ℕ × A)) → s ≤ time → From s l → From s (insert time a l)
  unfolding insert
  From-insert s time a [] h f = (h, tt)
  From-insert s time a ((t, b) ∷ l) h f = ground (arith, From-insert s time a l h f.1)

  pub insert-InOrder : (time : ℕ) (a : A) (l : List (ℕ × A)) → InOrder l → InOrder (insert time a l)
  unfolding insert
  insert-InOrder time a [] o = (tt, tt)
  insert-InOrder time a ((t, b) ∷ l) o = elim (Bool-cases (ltb time t)) [
    | inl first ↦
        let le : time ≤ t = ground arith in
        let rest = From-trans time t l le o.0 in ground (arith, rest)
    | inr later ↦
        let le : t ≤ time = ground arith in
        let rest = From-insert t time a l le o.0 in
        ground (arith, rest, insert-InOrder time a l o.1)
  ]

  From-erase_if : (s : ℕ) (p : A → Bool) (l : List (ℕ × A)) → From s l → From s (erase_if p l)
  unfolding erase_if
  From-erase_if s p [] f = tt
  From-erase_if s p ((t, b) ∷ l) f = ground (arith, From-erase_if s p l f.1)

  pub erase_if-InOrder : (p : A → Bool) (l : List (ℕ × A)) → InOrder l → InOrder (erase_if p l)
  unfolding erase_if
  erase_if-InOrder p [] o = tt
  erase_if-InOrder p ((t, b) ∷ l) o =
      ground (arith, From-erase_if t p l o.0, erase_if-InOrder p l o.1)

  From-erase_found :
      (s : ℕ) (p : A → Bool) (l l' : List (ℕ × A))
      → erase_found p l ≡ some l'
      → From s l
      → From s l'
  unfolding erase_found
  From-erase_found s p [] l' e f = cc
  From-erase_found s p ((t, b) ∷ l) l' e f = elim (Option-cases (erase_found p l)) [
    | inl n ↦ ground arith
    | inr (m, n) ↦ ground (arith, From-erase_found s p l m n f.1)
  ]

  pub erase_found-InOrder :
      (p : A → Bool) (l l' : List (ℕ × A)) → erase_found p l ≡ some l' → InOrder l → InOrder l'
  unfolding erase_found
  erase_found-InOrder p [] l' e o = cc
  erase_found-InOrder p ((t, b) ∷ l) l' e o = elim (Option-cases (erase_found p l)) [
    | inl n ↦ ground arith
    | inr (m, n) ↦ ground (arith, From-erase_found t p l m n o.0, erase_found-InOrder p l m n o.1)
  ]

  below-From : (limit t : ℕ) (l : List (ℕ × A)) → limit ≤ t → From t l → below limit l ≡ []
  unfolding below
  below-From limit t [] h f = refl
  below-From limit t ((u, a) ∷ l) h f =
      ground (arith, below-From limit u l, below-From limit t l h f.1)

  -- In order, the entries before the first one that is due no more are all those below the limit.
  pub take_before-below :
      (limit : ℕ) (l : List (ℕ × A)) → InOrder l → take_before limit l ≡ below limit l
  unfolding take_before below
  take_before-below limit [] o = refl
  take_before-below limit ((t, a) ∷ l) o =
      ground (arith, take_before-below limit l o.1, below-From limit t l)

  -- The number of entries that pass a test.
  unfoldable pub passing : (A → Bool) → List (ℕ × A) → ℕ
  passing p [] = 0
  passing p ((t, a) ∷ l) = let rest = passing p l in if p a then suc rest else rest

  pub passing-insert :
      (p : A → Bool) (time : ℕ) (a : A) (l : List (ℕ × A))
      → passing p (insert time a l) ≡ (if p a then 1 else 0) + passing p l
  unfolding passing insert
  passing-insert p time a [] = ground arith
  passing-insert p time a ((t, b) ∷ l) = ground (arith, passing-insert p time a l)

  pub find_first-none : (p : A → Bool) (l : List (ℕ × A)) → passing p l ≡ 0 → find_first p l ≡ none
  unfolding passing find_first
  find_first-none p [] h = refl
  find_first-none p ((t, a) ∷ l) h = ground (arith, find_first-none p l)

  pub passing-find_first :
      (p : A → Bool) (l : List (ℕ × A)) → find_first p l ≡ none → passing p l ≡ 0
  unfolding passing find_first
  passing-find_first p [] h = refl
  passing-find_first p ((t, a) ∷ l) h = ground (arith, passing-find_first p l)

  -- Where no entry passes, an inserted entry that passes is the one that is found.
  pub find_first-insert :
      (p : A → Bool) (time : ℕ) (a : A) (l : List (ℕ × A))
      → passing p l ≡ 0
      → p a ≡ true
      → find_first p (insert time a l) ≡ some (time, a)
  unfolding passing find_first insert
  find_first-insert p time a [] n h = ground arith
  find_first-insert p time a ((t, b) ∷ l) n h = ground (arith, find_first-insert p time a l)

  -- An entry that fails the test does not change what is found.
  pub find_first-insert_other :
      (p : A → Bool) (time : ℕ) (a : A) (l : List (ℕ × A))
      → p a ≡ false
      → find_first p (insert time a l) ≡ find_first p l
  unfolding find_first insert
  find_first-insert_other p time a [] h = ground arith
  find_first-insert_other p time a ((t, b) ∷ l) h =
      ground (arith, find_first-insert_other p time a l h)

  pub passing-erase_found :
      (p : A → Bool) (l l' : List (ℕ × A))
      → erase_found p l ≡ some l'
      → passing p l ≡ suc (passing p l')
  unfolding passing erase_found
  passing-erase_found p [] l' e = cc
  passing-erase_found p ((t, b) ∷ l) l' e = elim (Option-cases (erase_found p l)) [
    | inl n ↦ ground arith
    | inr (m, n) ↦ ground (arith, passing-erase_found p l m n)
  ]

  pub erase_found-none :
      (p : A → Bool) (l : List (ℕ × A)) → erase_found p l ≡ none → passing p l ≡ 0
  unfolding passing erase_found
  erase_found-none p [] e = refl
  erase_found-none p ((t, b) ∷ l) e = ground (arith, erase_found-none p l)

  pub passing-erase_if : (p : A → Bool) (l : List (ℕ × A)) → passing p (erase_if p l) ≡ 0
  unfolding passing erase_if
  passing-erase_if p [] = refl
  passing-erase_if p ((t, a) ∷ l) = ground (arith, passing-erase_if p l)

  -- Erasing an entry that passes one test does not change what a disjoint test finds.
  pub find_first-erase_found_other :
      (p q : A → Bool) (l l' : List (ℕ × A))
      → ((a : A) → p a ≡ true → q a ≡ false)
      → erase_found p l ≡ some l'
      → find_first q l' ≡ find_first q l
  unfolding find_first erase_found
  find_first-erase_found_other p q [] l' apart e = cc
  find_first-erase_found_other p q ((t, a) ∷ l) l' apart e = elim (Bool-cases (p a)) [
    | inl h ↦ ground (arith, apart a h)
    | inr h ↦ elim (Option-cases (erase_found p l)) [
      | inl n ↦ ground arith
      | inr (m, n) ↦ ground (arith, find_first-erase_found_other p q l m apart n)
    ]
  ]
