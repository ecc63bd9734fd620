-- ===== src/MapHandler/Laws.antt =====
-- What the methods of the map do to the values that its keys have.
use beryldb.Prelude.{
  ◌≡◌, refl, Bool, true, false, [], ◌∷◌, Str, Option, some, none, IsNonempty, length, str_eq,
  str_eq_iff, arith, ◌==◌, if◌then◌else◌, Option-cases, inl, inr, cmp_refl, eq_of_cmp, is_empty,
}
use beryldb.Stl.{is_nil}
use beryldb.Stl.Ordered.{Pairs, map_insert, erase_key}
use beryldb.Stl.OrderedLaws.{IsAscending, Above}
use beryldb.Handler.Types.{HandlerMsg, ok, not_found}
use beryldb.MapHandler
use beryldb.MapHandler.{MapHandler, get_loop, exists_loop, delete_loop}

-- The value of a key, `none` where the key is missing: the map as a client sees it.
pub value_at : MapHandler → Str → Option Str
value_at h key = get_loop key h.mhandler

get_loop-empty : (j : Str) → get_loop j [] ≡ none
unfolding get_loop
get_loop-empty j = refl

get_loop-erase_key :
    (key j : Str) (m : Pairs)
    → get_loop j (erase_key key m) ≡ (if str_eq key j then none else get_loop j m)
unfolding get_loop erase_key
get_loop-erase_key key j [] = ground arith
get_loop-erase_key key j ((k, v) ∷ m) =
    ground (arith, get_loop-erase_key key j m, str_eq_iff k key, str_eq_iff k j, str_eq_iff key j)

get_loop-map_insert :
    (key value j : Str) (m : Pairs)
    → get_loop key m ≡ none
    → get_loop j (map_insert key value m) ≡ (if str_eq key j then some value else get_loop j m)
unfolding get_loop map_insert
get_loop-map_insert key value j [] n = ground arith
get_loop-map_insert key value j ((k, v) ∷ m) n = ground (
  arith,
  get_loop-map_insert key value j m,
  str_eq_iff k key,
  str_eq_iff k j,
  str_eq_iff key j,
  eq_of_cmp key k,
)

-- After `Add` the key has the new value and every other key the value that it had; an empty key is
-- refused and changes no value.
pub value_at-add :
    (h : MapHandler) (key value j : Str)
    → value_at (MapHandler.add h key value) j
      ≡ (if is_empty key then value_at h j else if str_eq key j then some value else value_at h j)
unfolding value_at MapHandler.add
value_at-add h [] value j = refl
value_at-add h (c ∷ key) value j = ground (
  arith,
  get_loop-map_insert (c ∷ key) value j (erase_key (c ∷ key) h.mhandler),
  get_loop-erase_key (c ∷ key) (c ∷ key) h.mhandler,
  get_loop-erase_key (c ∷ key) j h.mhandler,
  str_eq_iff (c ∷ key) (c ∷ key),
)

abbrev pub has : Option Str → Bool
has none = false
has (some v) = true

exists_loop-get_loop : (word : Str) (m : Pairs) → exists_loop word m ≡ has (get_loop word m)
unfolding exists_loop get_loop
exists_loop-get_loop word [] = refl
exists_loop-get_loop word ((k, v) ∷ m) =
    ground (arith, exists_loop-get_loop word m, str_eq_iff word k, str_eq_iff k word)

get_loop-nil : (key : Str) (m : Pairs) → is_nil m ≡ true → get_loop key m ≡ none
unfolding get_loop
get_loop-nil key [] h = refl
get_loop-nil key (p ∷ m) h = cc

abbrev pub found : Option Str → HandlerMsg × Bool × Str
found none = (not_found, false, [])
found (some v) = (ok, true, v)

-- `Exists` and `Get` agree with the value of the key, in their result and in the message; on a missing
-- key `Get` gives the empty string.
pub lookups :
    (h : MapHandler) (key : Str)
    → ((MapHandler.exists h key).1 ≡ (found (value_at h key)).1)
      × ((MapHandler.exists h key).0.last_msg ≡ some (found (value_at h key)).0)
      × ((MapHandler.get h key).1 ≡ (found (value_at h key)).2)
      × ((MapHandler.get h key).0.last_msg ≡ some (found (value_at h key)).0)
unfolding value_at MapHandler.exists MapHandler.get
lookups h key =
    let e = exists_loop-get_loop key h.mhandler in
    let n = get_loop-nil key h.mhandler in
    (ground (arith, n), ground (arith, n), ground arith, ground arith)

erase_key-Above : (key : Str) (m : Pairs) → Above key m → erase_key key m ≡ m
unfolding erase_key
erase_key-Above key [] a = refl
erase_key-Above key ((k, v) ∷ m) a =
    ground (arith, erase_key-Above key m a.1, str_eq_iff k key, cmp_refl key)

delete_loop-some :
    (key : Str) (m m' : Pairs)
    → IsAscending m
    → delete_loop key m ≡ some m'
    → (m' ≡ erase_key key m) × (has (get_loop key m) ≡ true)
unfolding delete_loop erase_key get_loop
delete_loop-some key [] m' a e = (cc, cc)
delete_loop-some key ((k, v) ∷ m) m' a e = elim (Option-cases (delete_loop key m)) [
  | inl n ↦
      (ground (arith, erase_key-Above key m, str_eq_iff k key), ground (arith, str_eq_iff k key))
  | inr (r, n) ↦
      let rest = delete_loop-some key m r a.1 n in
      (
        ground (arith, rest.0, erase_key-Above key m, str_eq_iff k key),
        ground (arith, rest.1, str_eq_iff k key),
      )
]

delete_loop-none : (key : Str) (m : Pairs) → delete_loop key m ≡ none → get_loop key m ≡ none
unfolding delete_loop get_loop
delete_loop-none key [] e = refl
delete_loop-none key ((k, v) ∷ m) e = ground (arith, delete_loop-none key m)

-- On a map in order, `Delete` takes the key out and no other, and returns whether it was there.
pub value_at-delete :
    (h : MapHandler) (key j : Str)
    → IsAscending h.mhandler
    → (value_at (MapHandler.delete h key).0 j ≡ (if str_eq key j then none else value_at h j))
      × ((MapHandler.delete h key).1 ≡ has (value_at h key))
unfolding value_at MapHandler.delete
value_at-delete h key j a = elim (Option-cases (delete_loop key h.mhandler)) [
  | inl e ↦
      let missing = delete_loop-none key h.mhandler e in
      (ground (arith, str_eq_iff key j, get_loop-nil j h.mhandler), ground arith)
  | inr (m, e) ↦
      let gone = delete_loop-some key h.mhandler m a e in
      (
        ground (arith, gone, get_loop-erase_key key j h.mhandler, get_loop-nil key h.mhandler),
        ground (arith, gone, get_loop-nil key h.mhandler),
      )
]

-- `Remove` of a key that is not empty: where the map has not exactly one pair, it takes the key out
-- and no other; the only pair of a map goes whatever the key is.
pub value_at-remove :
    (h : MapHandler) (key j : Str)
    → IsNonempty key
    → value_at (MapHandler.remove h key) j
      ≡ (if length h.mhandler == 1 then none else if str_eq key j then none else value_at h j)
unfolding value_at MapHandler.remove
value_at-remove h [] j n = absurd n
value_at-remove h (c ∷ key) j n =
    ground (arith, get_loop-erase_key (c ∷ key) j h.mhandler, get_loop-empty j)
