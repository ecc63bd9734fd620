-- ===== src/Stl/OrderedLaws.antt =====
-- What the operations of the ordered containers do: lookups, order, and insertion at the end.
use beryldb.Prelude.{
  ◌≡◌, ◌≢◌, ◌⊎◌, inl, inr, refl, [], ◌∷◌, ◌++◌, Str, All, length, arith, Ordering, str_cmp, str_eq,
  str_eq_iff, cmp_refl, eq_of_cmp, lt_of_gt, gt_of_lt, cmp_trans, if◌then◌else◌,
}
use beryldb.Stl.Ordered.{Pairs, map_insert, multimap_insert, erase_key, count_key, values_of}

-- Every key is above `key`; none is below it.
abbrev pub Above : Str → Pairs → Type 0
Above key = All (λ (p : Str × Str). str_cmp key p.0 ≡ Ordering.lt)

abbrev pub NotBelow : Str → Pairs → Type 0
NotBelow key = All (λ (p : Str × Str). str_cmp key p.0 ≢ Ordering.gt)

-- The order of std::map, with no key twice, and that of std::multimap.
abbrev pub IsAscending : Pairs → Type 0
IsAscending [] = Unit
IsAscending ((k, v) ∷ m) = Above k m × IsAscending m

abbrev pub IsWeaklyAscending : Pairs → Type 0
IsWeaklyAscending [] = Unit
IsWeaklyAscending ((k, v) ∷ m) = NotBelow k m × IsWeaklyAscending m

module _ (P : Str × Str → Type 0) where
  pub All-erase_key : (key : Str) (m : Pairs) → All P m → All P (erase_key key m)
  unfolding erase_key
  All-erase_key key [] h = tt
  All-erase_key key ((k, v) ∷ m) h = ground (arith, All-erase_key key m h.1)

  pub All-map_insert :
      (key value : Str) (m : Pairs) → P (key, value) → All P m → All P (map_insert key value m)
  unfolding map_insert
  All-map_insert key value [] p h = (p, tt)
  All-map_insert key value ((k, v) ∷ m) p h = ground (arith, All-map_insert key value m p h.1)

  pub All-multimap_insert :
      (key value : Str) (m : Pairs) → P (key, value) → All P m → All P (multimap_insert key value m)
  unfolding multimap_insert
  All-multimap_insert key value [] p h = (p, tt)
  All-multimap_insert key value ((k, v) ∷ m) p h =
      ground (arith, All-multimap_insert key value m p h.1)

pub lt_le_trans :
    (j k i : Str)
    → str_cmp j k ≡ Ordering.lt
    → str_cmp k i ≢ Ordering.gt
    → str_cmp j i ≡ Ordering.lt
lt_le_trans j k i h n = ground (arith, cmp_trans j k i, eq_of_cmp k i)

pub Above-trans : (j k : Str) (m : Pairs) → str_cmp j k ≡ Ordering.lt → Above k m → Above j m
Above-trans j k [] h a = tt
Above-trans j k ((i, v) ∷ m) h a = (cmp_trans j k i h a.0, Above-trans j k m h a.1)

NotBelow-trans : (j k : Str) (m : Pairs) → str_cmp j k ≡ Ordering.lt → NotBelow k m → NotBelow j m
NotBelow-trans j k [] h a = tt
NotBelow-trans j k ((i, v) ∷ m) h a =
    (λ e. cc (lt_le_trans j k i h a.0), NotBelow-trans j k m h a.1)

pub erase_key-IsAscending : (key : Str) (m : Pairs) → IsAscending m → IsAscending (erase_key key m)
unfolding erase_key
erase_key-IsAscending key [] h = tt
erase_key-IsAscending key ((k, v) ∷ m) h = ground (
  arith,
  erase_key-IsAscending key m h.1,
  All-erase_key (λ (p : Str × Str). str_cmp k p.0 ≡ Ordering.lt) key m h.0,
)

pub map_insert-IsAscending :
    (key value : Str) (m : Pairs) → IsAscending m → IsAscending (map_insert key value m)
unfolding map_insert
map_insert-IsAscending key value [] h = (tt, tt)
map_insert-IsAscending key value ((k, v) ∷ m) h = ground (
  arith,
  map_insert-IsAscending key value m h.1,
  lt_of_gt key k,
  Above-trans key k m,
  λ (e : str_cmp key k ≡ Ordering.gt).
      All-map_insert (λ (p : Str × Str). str_cmp k p.0 ≡ Ordering.lt) key value m (lt_of_gt key k e)
        h.0,
)

-- A key above all others is inserted at the end.
abbrev pub AllBelow : Str → Pairs → Type 0
AllBelow key = All (λ (p : Str × Str). str_cmp key p.0 ≡ Ordering.gt)

pub map_insert_end :
    (key value : Str) (m : Pairs) → AllBelow key m → map_insert key value m ≡ m ++ (key, value) ∷ []
unfolding map_insert
map_insert_end key value [] h = refl
map_insert_end key value ((k, v) ∷ m) h = ground (arith, map_insert_end key value m h.1)

pub multimap_insert_end :
    (key value : Str) (m : Pairs)
    → All (λ (p : Str × Str). str_cmp key p.0 ≢ Ordering.lt) m
    → multimap_insert key value m ≡ m ++ (key, value) ∷ []
unfolding multimap_insert
multimap_insert_end key value [] h = refl
multimap_insert_end key value ((k, v) ∷ m) h = ground (arith, multimap_insert_end key value m h.1)

pub erase_key_none : (key : Str) (m : Pairs) → AllBelow key m → erase_key key m ≡ m
unfolding erase_key
erase_key_none key [] h = refl
erase_key_none key ((k, v) ∷ m) h =
    ground (arith, str_eq_iff k key, cmp_refl key, erase_key_none key m h.1)

values_of_none :
    (j k : Str) (m : Pairs) → NotBelow k m → str_cmp j k ≡ Ordering.lt → values_of j m ≡ []
unfolding values_of
values_of_none j k [] n h = refl
values_of_none j k ((i, v) ∷ m) n h =
    ground (arith, values_of_none j k m n.1 h, lt_le_trans j k i h n.0, str_eq_iff i j, cmp_refl j)

-- `count` and the values after an insertion and after an erasure.
pub values_of-multimap_insert :
    (key value j : Str) (m : Pairs)
    → IsWeaklyAscending m
    → values_of j (multimap_insert key value m)
      ≡ (if str_eq key j then values_of j m ++ value ∷ [] else values_of j m)
unfolding values_of multimap_insert
values_of-multimap_insert key value j [] h = ground arith
values_of-multimap_insert key value j ((k, v) ∷ m) h = ground (
  arith,
  values_of-multimap_insert key value j m h.1,
  str_eq_iff key j,
  str_eq_iff k j,
  cmp_refl key,
  values_of_none key k m h.0,
)

pub values_of-erase_key :
    (key j : Str) (m : Pairs)
    → values_of j (erase_key key m) ≡ (if str_eq key j then [] else values_of j m)
unfolding values_of erase_key
values_of-erase_key key j [] = ground arith
values_of-erase_key key j ((k, v) ∷ m) =
    ground (arith, values_of-erase_key key j m, str_eq_iff k key, str_eq_iff k j, str_eq_iff key j)

pub count_key-values_of : (key : Str) (m : Pairs) → count_key key m ≡ length (values_of key m)
unfolding values_of count_key
count_key-values_of key [] = refl
count_key-values_of key ((k, v) ∷ m) = ground (arith, count_key-values_of key m)

Ordering-cases : (o : Ordering) → (o ≡ Ordering.lt) ⊎ (o ≢ Ordering.lt)
Ordering-cases o = ground arith

pub not_gt_of_not_lt : (key k : Str) → str_cmp key k ≢ Ordering.lt → str_cmp k key ≢ Ordering.gt
not_gt_of_not_lt key k n e = n (lt_of_gt k key e)

pub multimap_insert-IsWeaklyAscending :
    (key value : Str) (m : Pairs)
    → IsWeaklyAscending m
    → IsWeaklyAscending (multimap_insert key value m)
unfolding multimap_insert
multimap_insert-IsWeaklyAscending key value [] h = (tt, tt)
multimap_insert-IsWeaklyAscending key value ((k, v) ∷ m) h = elim (Ordering-cases (str_cmp key k)) [
  | inl e ↦
      let front : NotBelow key ((k, v) ∷ m) = (λ g. cc (e, g), NotBelow-trans key k m e h.0) in
      rw (e, IsWeaklyAscending) (front, h)
  | inr n ↦
      let behind =
        All-multimap_insert (λ (p : Str × Str). str_cmp k p.0 ≢ Ordering.gt) key value m
          (not_gt_of_not_lt key k n) h.0 in
      let rest = multimap_insert-IsWeaklyAscending key value m h.1 in ground (arith, n)
]

pub erase_key-IsWeaklyAscending :
    (key : Str) (m : Pairs) → IsWeaklyAscending m → IsWeaklyAscending (erase_key key m)
unfolding erase_key
erase_key-IsWeaklyAscending key [] h = tt
erase_key-IsWeaklyAscending key ((k, v) ∷ m) h = ground (
  arith,
  erase_key-IsWeaklyAscending key m h.1,
  All-erase_key (λ (p : Str × Str). str_cmp k p.0 ≢ Ordering.gt) key m h.0,
)

pub not_lt_of_not_gt : (k key : Str) → str_cmp k key ≢ Ordering.gt → str_cmp key k ≢ Ordering.lt
not_lt_of_not_gt k key n e = n (gt_of_lt key k e)

pub values_of-nil : (key : Str) → values_of key [] ≡ []
unfolding values_of
values_of-nil key = refl
