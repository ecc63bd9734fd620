-- ===== src/MapHandler/Valid.antt =====
-- Whatever is loaded or added, the map can be stored again.
use beryldb.Prelude.{
  ◌+◌, ◌<◌, ◌≤◌, ap, List, [], ◌∷◌, Str, IsBytes, All, length, arith, Bool-cases, ◌==◌, inl, inr,
}
use beryldb.Machine.{u32_mod}
use beryldb.Codec.{to_string}
use beryldb.Codec.RoundTrip.{to_string-IsBytes}
use beryldb.Nodes.{colon_node_stream, all_items, index_of}
use beryldb.Nodes.Split.{length-split-le}
use beryldb.Nodes.Items.{all_items-split}
use beryldb.Handler.Words.{IsStorable}
use beryldb.Stl.Ordered.{Pairs, map_insert, erase_key}
use beryldb.Stl.OrderedLaws.{
  IsAscending, All-erase_key, erase_key-IsAscending, map_insert-IsAscending,
}
use beryldb.MapHandler.{MapHandler, new, add, add_each, create, remove, path_of, file_of}
use beryldb.MapHandler.Persist.{IsValid}

-- A map that can be stored, but for the bound on its size.
record IsSound (m : Pairs) : Type 0 where
  ascending : IsAscending m
  storable : All IsStorable m

All-map_insert :
    (key value : Str) (m : Pairs)
    → IsStorable (key, value)
    → All IsStorable m
    → All IsStorable (map_insert key value m)
unfolding map_insert
All-map_insert key value [] p a = (p, tt)
All-map_insert key value ((k, v) ∷ m) p a = ground (arith, p, a, All-map_insert key value m p a.1)

length-map_insert : (key value : Str) (m : Pairs) → length (map_insert key value m) ≤ length m + 1
unfolding map_insert
length-map_insert key value [] = omega arith
length-map_insert key value ((k, v) ∷ m) = ground (arith, length-map_insert key value m)

length-erase_key : (key : Str) (m : Pairs) → length (erase_key key m) ≤ length m
unfolding erase_key
length-erase_key key [] = omega arith
length-erase_key key ((k, v) ∷ m) = ground (arith, length-erase_key key m)

add-IsSound :
    (h : MapHandler) (key value : Str)
    → IsBytes key
    → IsBytes value
    → IsSound h.mhandler
    → IsSound (add h key value).mhandler
unfolding add
add-IsSound h [] value b c s = s
add-IsSound h (x ∷ key) value b c s = record {
  ascending =
      map_insert-IsAscending (x ∷ key) value (erase_key (x ∷ key) h.mhandler)
        (erase_key-IsAscending (x ∷ key) h.mhandler s.ascending);
  storable =
      All-map_insert (x ∷ key) value (erase_key (x ∷ key) h.mhandler) (tt, b, c)
        (All-erase_key IsStorable (x ∷ key) h.mhandler s.storable);
}

length-add :
    (h : MapHandler) (key value : Str) → length (add h key value).mhandler ≤ length h.mhandler + 1
unfolding add
length-add h [] value = omega arith
length-add h (x ∷ key) value = omega (
  arith,
  length-map_insert (x ∷ key) value (erase_key (x ∷ key) h.mhandler),
  length-erase_key (x ∷ key) h.mhandler,
)

add_each-IsSound :
    (h : MapHandler) (masks : List Str) → IsSound h.mhandler → IsSound (add_each h masks).mhandler
unfolding add_each
add_each-IsSound h [] s = s
add_each-IsSound h (mask ∷ masks) s =
    let found = index_of b'/' mask in
    let key = to_string (path_of mask found) in
    let value = to_string (file_of mask found) in
    add_each-IsSound (add h key value) masks (
      add-IsSound h key value (to_string-IsBytes (path_of mask found))
        (to_string-IsBytes (file_of mask found)) s)

length-add_each :
    (h : MapHandler) (masks : List Str)
    → length (add_each h masks).mhandler ≤ length h.mhandler + length masks
unfolding add_each
length-add_each h [] = omega arith
length-add_each h (mask ∷ masks) =
    let found = index_of b'/' mask in
    let key = to_string (path_of mask found) in
    let value = to_string (file_of mask found) in
    omega (arith, length-add_each (add h key value) masks, length-add h key value)

-- Whatever text below 4 GB is loaded, the map built from it is valid: the keys are in order and none is
-- empty, all is made of bytes, and there are fewer than 2^32 pairs.
pub create-IsValid_map : (load : Str) → length load < u32_mod → IsValid (create load).mhandler
unfolding create new
create-IsValid_map load w =
    let items = all_items (colon_node_stream load) in
    let s = add_each-IsSound new items (record { ascending = tt; storable = tt }) in
    record {
      ascending = s.ascending;
      storable = s.storable;
      fits = omega (
        arith,
        length-add_each new items,
        ap length (all_items-split load b':'),
        length-split-le b':' load,
      );
    }

remove-IsValid : (h : MapHandler) (key : Str) → IsValid h.mhandler → IsValid (remove h key).mhandler
unfolding remove
remove-IsValid h [] v = v
remove-IsValid h (x ∷ key) v = elim (Bool-cases (length h.mhandler == 1)) [
  | inl one ↦ rw one (record { ascending = tt; storable = tt; fits = omega arith })
  | inr more ↦ rw more (record {
    ascending = erase_key-IsAscending (x ∷ key) h.mhandler v.ascending;
    storable = All-erase_key IsStorable (x ∷ key) h.mhandler v.storable;
    fits = omega (arith, v.fits, length-erase_key (x ∷ key) h.mhandler);
  })
]

-- On a valid map with room for one pair more, `Add` of a key and a value of bytes and `Remove` of a
-- key of bytes leave a valid map.
pub add-remove-IsValid :
    (h : MapHandler) (key value : Str)
    → IsBytes key
    → IsBytes value
    → length h.mhandler + 1 < u32_mod
    → IsValid h.mhandler
    → IsValid (add h key value).mhandler × IsValid (remove h key).mhandler
add-remove-IsValid h key value b c w v =
    let s =
      add-IsSound h key value b c (record { ascending = v.ascending; storable = v.storable }) in
    (
      record {
        ascending = s.ascending;
        storable = s.storable;
        fits = omega (arith, length-add h key value);
      },
      remove-IsValid h key v,
    )
