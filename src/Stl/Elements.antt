-- ===== src/Stl/Elements.antt =====
-- The sequence operations keep a property of all elements, and only `push_back` and a greater `resize`
-- make a sequence longer.
use beryldb.Prelude.{
  ℕ, zero, suc, ◌≤◌, ◌≡◌, refl, some, List, [], ◌∷◌, reverse, Str, All, All-append, length,
  length-append, arith, str_eq, take, subst, Bool-cases, Option-cases, inl, inr,
}
use mathlib.Core.List.{reverse-cons}
use beryldb.Stl.{pop_back, erase_first, remove_all, insert_sorted, sort}

module _ {ℓ} (P : Str → Type ℓ) where
  pub All-pop_back : (l : List Str) → All P l → All P (pop_back l)
  unfolding pop_back
  All-pop_back [] h = tt
  All-pop_back (x ∷ []) h = tt
  All-pop_back (x ∷ y ∷ l) h = (h.0, All-pop_back (y ∷ l) h.1)

  pub All-erase_first :
      (key : Str) (l l' : List Str) → erase_first key l ≡ some l' → All P l → All P l'
  unfolding erase_first
  All-erase_first key [] l' e h = cc
  All-erase_first key (x ∷ l) l' e h = elim (Bool-cases (str_eq x key)) [
    | inl hit ↦ let same : l ≡ l' = ground arith in subst (All P) same h.1
    | inr miss ↦ elim (Option-cases (erase_first key l)) [
      | inl e' ↦ absurd (ground arith)
      | inr (m, e') ↦
          let same : x ∷ m ≡ l' = ground arith in
          subst (All P) same (h.0, All-erase_first key l m e' h.1)
    ]
  ]

  pub All-remove_all : (key : Str) (l : List Str) → All P l → All P (remove_all key l)
  unfolding remove_all
  All-remove_all key [] h = tt
  All-remove_all key (x ∷ l) h = ground (arith, All-remove_all key l h.1)

  pub All-reverse : (l : List Str) → All P l → All P (reverse l)
  All-reverse [] h = tt
  All-reverse (x ∷ l) h =
      rw (reverse-cons x l) (All-append P (reverse l) (x ∷ []) (All-reverse l h.1) (h.0, tt))

  All-insert_sorted : (x : Str) (l : List Str) → P x → All P l → All P (insert_sorted x l)
  unfolding insert_sorted
  All-insert_sorted x [] p h = (p, tt)
  All-insert_sorted x (y ∷ l) p h = ground (arith, All-insert_sorted x l p h.1)

  pub All-sort : (l : List Str) → All P l → All P (sort l)
  unfolding sort
  All-sort [] h = tt
  All-sort (x ∷ l) h = All-insert_sorted x (sort l) h.0 (All-sort l h.1)

  pub All-take : (n : ℕ) (l : List Str) → All P l → All P (take n l)
  All-take zero l h = tt
  All-take (suc n) [] h = tt
  All-take (suc n) (x ∷ l) h = (h.0, All-take n l h.1)

pub length-pop_back-le : (l : List Str) → length (pop_back l) ≤ length l
unfolding pop_back
length-pop_back-le [] = omega arith
length-pop_back-le (x ∷ []) = omega arith
length-pop_back-le (x ∷ y ∷ l) = omega (arith, length-pop_back-le (y ∷ l))

pub length-erase_first :
    (key : Str) (l l' : List Str) → erase_first key l ≡ some l' → length l ≡ suc (length l')
unfolding erase_first
length-erase_first key [] l' e = cc
length-erase_first key (x ∷ l) l' e = elim (Option-cases (erase_first key l)) [
  | inl e' ↦ ground arith
  | inr (m, e') ↦ ground (arith, length-erase_first key l m e')
]

pub length-remove_all-le : (key : Str) (l : List Str) → length (remove_all key l) ≤ length l
unfolding remove_all
length-remove_all-le key [] = omega arith
length-remove_all-le key (x ∷ l) = ground (arith, length-remove_all-le key l)

pub length-reverse : (l : List Str) → length (reverse l) ≡ length l
length-reverse [] = refl
length-reverse (x ∷ l) =
    rw (reverse-cons x l) (omega (arith, length-append (reverse l) (x ∷ []), length-reverse l))

length-insert_sorted : (x : Str) (l : List Str) → length (insert_sorted x l) ≡ suc (length l)
unfolding insert_sorted
length-insert_sorted x [] = refl
length-insert_sorted x (y ∷ l) = ground (arith, length-insert_sorted x l)

pub length-sort : (l : List Str) → length (sort l) ≡ length l
unfolding sort
length-sort [] = refl
length-sort (x ∷ l) = omega (arith, length-insert_sorted x (sort l), length-sort l)
