-- ===== src/Prelude/Text.antt =====
-- std::string as the list of its bytes, with its order (unsigned bytes, a prefix first).
use Prim.Native.Nat.{ℕ, ◌<◌, compare, Ordering}
use Prim.Native.Nat.Ordering.{lt, eq, gt}
use Prim.Native.Char.{code}
use Prim.Native.String.{String}
use mathlib.Core.Path.{◌≡◌, refl}
use mathlib.Core.Logic.{◌↔◌}
use mathlib.Core.Bool.{Bool, true, false}
use mathlib.Core.List.{List, [], ◌∷◌}
use native.Mathlib.Omega.{arith}
use beryldb.Prelude.Lists.{All}

abbrev pub Str : Type 0
Str = List ℕ

-- The bytes of an ASCII literal.
abbrev pub codes : String → Str
codes String.[] = []
codes (String.◌∷◌ c s) = code c ∷ codes s

abbrev pub IsByte : ℕ → Type 0
IsByte c = c < 256

abbrev pub IsBytes : Str → Type 0
IsBytes s = All IsByte s

abbrev pub IsNonempty : Str → Type 0
IsNonempty [] = ⊥
IsNonempty (c ∷ s) = Unit

abbrev pub is_empty : Str → Bool
is_empty [] = true
is_empty (c ∷ s) = false

abbrev pub then : Ordering → Ordering → Ordering
then eq second = second
then first _ = first

unfoldable pub str_cmp : Str → Str → Ordering
str_cmp [] [] = eq
str_cmp [] (b ∷ t) = lt
str_cmp (a ∷ s) [] = gt
str_cmp (a ∷ s) (b ∷ t) = then (compare a b) (str_cmp s t)

pub cmp_refl : (s : Str) → str_cmp s s ≡ eq
unfolding str_cmp
cmp_refl [] = refl
cmp_refl (a ∷ s) = ground (arith, cmp_refl s)

pub eq_of_cmp : (s t : Str) → str_cmp s t ≡ eq → s ≡ t
unfolding str_cmp
eq_of_cmp [] [] h = refl
eq_of_cmp [] (b ∷ t) h = cc
eq_of_cmp (a ∷ s) [] h = cc
eq_of_cmp (a ∷ s) (b ∷ t) h = ground (arith, eq_of_cmp s t)

pub lt_of_gt : (s t : Str) → str_cmp s t ≡ gt → str_cmp t s ≡ lt
unfolding str_cmp
lt_of_gt [] [] h = cc
lt_of_gt [] (b ∷ t) h = cc
lt_of_gt (a ∷ s) [] h = refl
lt_of_gt (a ∷ s) (b ∷ t) h = ground (arith, lt_of_gt s t)

pub gt_of_lt : (s t : Str) → str_cmp s t ≡ lt → str_cmp t s ≡ gt
unfolding str_cmp
gt_of_lt [] [] h = cc
gt_of_lt [] (b ∷ t) h = refl
gt_of_lt (a ∷ s) [] h = cc
gt_of_lt (a ∷ s) (b ∷ t) h = ground (arith, gt_of_lt s t)

pub cmp_trans : (s t u : Str) → str_cmp s t ≡ lt → str_cmp t u ≡ lt → str_cmp s u ≡ lt
unfolding str_cmp
cmp_trans [] t [] h k = ground (arith, gt_of_lt [] t h, gt_of_lt t [] k)
cmp_trans [] t (c ∷ u) h k = refl
cmp_trans (a ∷ s) [] u h k = cc
cmp_trans (a ∷ s) (b ∷ t) [] h k = cc
cmp_trans (a ∷ s) (b ∷ t) (c ∷ u) h k = ground (arith, cmp_trans s t u)

-- `==` of std::string.
unfoldable pub str_eq : Str → Str → Bool
str_eq s t = elim (str_cmp s t) [ eq ↦ true | _ ↦ false ]

pub str_eq_iff : (s t : Str) → (str_eq s t ≡ true) ↔ (s ≡ t)
unfolding str_eq
str_eq_iff s t = ground (arith, eq_of_cmp s t, cmp_refl s)

pub str_eq_refl : (s : Str) → str_eq s s ≡ true
str_eq_refl s = (str_eq_iff s s).1 refl
