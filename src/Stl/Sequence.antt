-- ===== src/Stl/Sequence.antt =====
-- What the sequence operations do to the elements.
use beryldb.Prelude.{
  ◌+◌, ◌≡◌, ◌≢◌, refl, ap, false, none, some, List, [], ◌∷◌, ◌++◌, Str, arith, Ordering, str_cmp,
  str_eq, str_eq_iff, lt_of_gt, if◌then◌else◌, Option-cases, inl, inr,
}
use beryldb.Stl.{pop_back, back_or, mem, erase_first, remove_all, occurrences, insert_sorted, sort}
use mathlib.Core.List.{Perm}
use mathlib.Core.List.Perm

-- A list with an element is its front part and its last element.
pub pop_back-back {ℓ} :
    {A : Type ℓ} (d x : A) (l : List A) → pop_back (x ∷ l) ++ back_or d (x ∷ l) ∷ [] ≡ x ∷ l
unfolding pop_back back_or
pop_back-back d x [] = refl
pop_back-back d x (y ∷ l) = ap (◌∷◌ x) (pop_back-back x y l)

pub pop_back-append {ℓ} : {A : Type ℓ} (l : List A) (x : A) → pop_back (l ++ x ∷ []) ≡ l
unfolding pop_back
pop_back-append [] x = refl
pop_back-append (y ∷ []) x = refl
pop_back-append (y ∷ z ∷ l) x = ap (◌∷◌ y) (pop_back-append (z ∷ l) x)

pub back_or-append {ℓ} : {A : Type ℓ} (d x : A) (l : List A) → back_or d (l ++ x ∷ []) ≡ x
unfolding back_or
back_or-append d x [] = refl
back_or-append d x (y ∷ l) = back_or-append y x l

-- Erasing one occurrence lowers its count by one and no other count.
pub occurrences-erase_first :
    (key word : Str) (l l' : List Str)
    → erase_first key l ≡ some l'
    → occurrences word l ≡ occurrences word l' + (if str_eq key word then 1 else 0)
unfolding erase_first occurrences
occurrences-erase_first key word [] l' h = cc
occurrences-erase_first key word (x ∷ l) l' h = elim (Option-cases (erase_first key l)) [
  | inl e ↦ ground (arith, str_eq_iff x key)
  | inr (m, e) ↦ ground (arith, str_eq_iff x key, occurrences-erase_first key word l m e)
]

pub erase_first-none : (key : Str) (l : List Str) → erase_first key l ≡ none → occurrences key l ≡ 0
unfolding erase_first occurrences
erase_first-none key [] h = refl
erase_first-none key (x ∷ l) h = ground (arith, erase_first-none key l)

pub occurrences-remove_all :
    (key word : Str) (l : List Str)
    → occurrences word (remove_all key l) ≡ (if str_eq key word then 0 else occurrences word l)
unfolding remove_all occurrences
occurrences-remove_all key word [] = ground arith
occurrences-remove_all key word (x ∷ l) = ground (
  arith,
  occurrences-remove_all key word l,
  str_eq_iff x key,
  str_eq_iff x word,
  str_eq_iff key word,
)

pub occurrences-zero_of_not_mem :
    (key : Str) (l : List Str) → mem key l ≡ false → occurrences key l ≡ 0
unfolding mem occurrences
occurrences-zero_of_not_mem key [] h = refl
occurrences-zero_of_not_mem key (x ∷ l) h = ground (arith, occurrences-zero_of_not_mem key l)

-- Sorting permutes the elements and orders them.
insert_sorted-perm : (x : Str) (l : List Str) → Perm (insert_sorted x l) (x ∷ l)
unfolding insert_sorted
insert_sorted-perm x [] = Perm.refl (x ∷ [])
insert_sorted-perm x (y ∷ l) =
    let rest = Perm.trans (Perm.cons y (insert_sorted-perm x l)) (Perm.swap x y l) in
    ground (arith, rest, Perm.refl (x ∷ y ∷ l))

pub sort-perm : (l : List Str) → Perm (sort l) l
unfolding sort
sort-perm [] = Perm.refl []
sort-perm (x ∷ l) = Perm.trans (insert_sorted-perm x (sort l)) (Perm.cons x (sort-perm l))

-- No element is greater than its successor.
abbrev pub IsSorted : List Str → Type 0
IsSorted [] = Unit
IsSorted (x ∷ []) = Unit
IsSorted (x ∷ y ∷ l) = (str_cmp x y ≢ Ordering.gt) × IsSorted (y ∷ l)

insert_sorted-IsSorted : (x : Str) (l : List Str) → IsSorted l → IsSorted (insert_sorted x l)
unfolding insert_sorted
insert_sorted-IsSorted x [] h = tt
insert_sorted-IsSorted x (y ∷ []) h = ground (arith, lt_of_gt x y)
insert_sorted-IsSorted x (y ∷ z ∷ l) h =
    ground (arith, insert_sorted-IsSorted x (z ∷ l) h.1, lt_of_gt x y)

pub sort-IsSorted : (l : List Str) → IsSorted (sort l)
unfolding sort
sort-IsSorted [] = tt
sort-IsSorted (x ∷ l) = insert_sorted-IsSorted x (sort l) (sort-IsSorted l)
