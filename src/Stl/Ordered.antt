-- ===== src/Stl/Ordered.antt =====
-- std::map and std::multimap from strings to strings: the pairs in the order of their keys.
use beryldb.Prelude.{ℕ, suc, List, [], ◌∷◌, Str, Ordering, str_cmp, str_eq, if◌then◌else◌}

abbrev pub Pairs : Type 0
Pairs = List (Str × Str)

-- `insert` of std::map: a key that is there keeps its value.
unfoldable pub map_insert : Str → Str → Pairs → Pairs
map_insert key value [] = (key, value) ∷ []
map_insert key value ((k, v) ∷ m) =
    let rest = map_insert key value m in
    elim (str_cmp key k) [
      | Ordering.lt ↦ (key, value) ∷ (k, v) ∷ m
      | Ordering.eq ↦ (k, v) ∷ m
      | Ordering.gt ↦ (k, v) ∷ rest
    ]

-- `insert` of std::multimap: behind the pairs with the same key.
unfoldable pub multimap_insert : Str → Str → Pairs → Pairs
multimap_insert key value [] = (key, value) ∷ []
multimap_insert key value ((k, v) ∷ m) =
    let rest = multimap_insert key value m in
    elim (str_cmp key k) [ Ordering.lt ↦ (key, value) ∷ (k, v) ∷ m | _ ↦ (k, v) ∷ rest ]

-- `erase(key)`: every pair with the key.
unfoldable pub erase_key : Str → Pairs → Pairs
erase_key key [] = []
erase_key key ((k, v) ∷ m) =
    let rest = erase_key key m in if str_eq k key then rest else (k, v) ∷ rest

-- `count(key)`.
unfoldable pub count_key : Str → Pairs → ℕ
count_key key [] = 0
count_key key ((k, v) ∷ m) = let rest = count_key key m in if str_eq k key then suc rest else rest

-- The values of the key, in order.
unfoldable pub values_of : Str → Pairs → List Str
values_of key [] = []
values_of key ((k, v) ∷ m) = let rest = values_of key m in if str_eq k key then v ∷ rest else rest
