-- ===== src/Stl.antt =====
-- The operations of std::list and std::vector that the handlers call, on the list of the elements.
pub mod Sequence
pub mod Elements
pub mod Ordered
pub mod OrderedLaws
pub mod Timed
pub mod TimedLaws
use beryldb.Prelude.{
  ℕ, zero, suc, ◌-◌, Bool, true, false, Option, none, some, List, [], ◌∷◌, ◌++◌, Str, length, take,
  replicate, str_cmp, str_eq, Ordering, if◌then◌else◌,
}
use mathlib.Core.Option

abbrev pub is_nil {ℓ} : {A : Type ℓ} → List A → Bool
is_nil [] = true
is_nil (x ∷ xs) = false

unfoldable pub pop_back {ℓ} : {A : Type ℓ} → List A → List A
pop_back [] = []
pop_back (x ∷ []) = []
pop_back (x ∷ y ∷ l) = x ∷ pop_back (y ∷ l)

-- `back()`, or the default where there is no element.
unfoldable pub back_or {ℓ} : {A : Type ℓ} → A → List A → A
back_or d [] = d
back_or d (x ∷ l) = back_or x l

-- std::find from begin() to end().
unfoldable pub mem : Str → List Str → Bool
mem key [] = false
mem key (x ∷ l) = let rest = mem key l in if str_eq x key then true else rest

-- The list without the first element that is equal, `none` where there is none.
unfoldable pub erase_first : Str → List Str → Option (List Str)
erase_first key [] = none
erase_first key (x ∷ l) =
    let rest = Option.map (λ l'. x ∷ l') (erase_first key l) in
    if str_eq x key then some l else rest

-- std::list::remove.
unfoldable pub remove_all : Str → List Str → List Str
remove_all key [] = []
remove_all key (x ∷ l) = let rest = remove_all key l in if str_eq x key then rest else x ∷ rest

-- How many elements are equal.
unfoldable pub occurrences : Str → List Str → ℕ
occurrences key [] = 0
occurrences key (x ∷ l) = let rest = occurrences key l in if str_eq x key then suc rest else rest

-- `resize(n)`: cut, or filled with empty strings.
unfoldable pub resize : ℕ → List Str → List Str
resize n l = take n l ++ replicate (n - length l) []

-- Sorting by `operator<` of std::string.
insert_sorted : Str → List Str → List Str
insert_sorted x [] = x ∷ []
insert_sorted x (y ∷ l) =
    let rest = insert_sorted x l in elim (str_cmp x y) [ Ordering.gt ↦ y ∷ rest | _ ↦ x ∷ y ∷ l ]

unfoldable pub sort : List Str → List Str
unfolding insert_sorted
sort [] = []
sort (x ∷ l) = insert_sorted x (sort l)
