-- ===== src/MapHandler/Tests.antt =====
-- The theorems about the map applied to a concrete map.
use beryldb.Stl.Ordered.{map_insert}
use beryldb.Prelude.{
  ◌≡◌, refl, [], ◌∷◌, some, none, length, str_eq, arith, ◌==◌, if◌then◌else◌, is_empty, str_cmp,
}
use beryldb.Handler.Types.{ok}
use beryldb.MapHandler
use beryldb.MapHandler.{MapHandler}
use beryldb.MapHandler.Persist.{IsValid, create-as_string_map}
use beryldb.Stl.OrderedLaws.{IsAscending}
use beryldb.MapHandler.Valid.{create-IsValid_map}
use beryldb.MapHandler.Laws.{value_at, value_at-add, value_at-remove}

abbrev pub two_keys : MapHandler
two_keys = record {
  mhandler = (b'a' ∷ [], b'x' ∷ []) ∷ (b'a' ∷ b'b' ∷ [], []) ∷ [];
  last_msg = some ok;
}

two_keys-IsAscending : IsAscending two_keys.mhandler
unfolding str_cmp
two_keys-IsAscending = ((refl, tt), (tt, tt))

pub two_keys-IsValid : IsValid two_keys.mhandler
two_keys-IsValid = record {
  ascending = two_keys-IsAscending;
  storable = (
    (tt, (omega arith, tt), (omega arith, tt)),
    ((tt, (omega arith, (omega arith, tt)), tt), tt),
  );
  fits = omega arith;
}

create-as_string_map_example :
    (MapHandler.create (MapHandler.as_string two_keys)).mhandler ≡ two_keys.mhandler
create-as_string_map_example = create-as_string_map two_keys two_keys-IsValid

value_at-add_example : value_at (MapHandler.add two_keys (b'a' ∷ []) (b'y' ∷ [])) (b'a' ∷ []) ≡ (
    if is_empty (b'a' ∷ [])
    then value_at two_keys (b'a' ∷ [])
    else if str_eq (b'a' ∷ []) (b'a' ∷ [])
    then some (b'y' ∷ [])
    else value_at two_keys (b'a' ∷ []))
value_at-add_example = value_at-add two_keys (b'a' ∷ []) (b'y' ∷ []) (b'a' ∷ [])

value_at-remove_example : value_at (MapHandler.remove two_keys (b'a' ∷ [])) (b'a' ∷ b'b' ∷ []) ≡ (
    if length two_keys.mhandler == 1
    then none
    else if str_eq (b'a' ∷ []) (b'a' ∷ b'b' ∷ [])
    then none
    else value_at two_keys (b'a' ∷ b'b' ∷ []))
value_at-remove_example = value_at-remove two_keys (b'a' ∷ []) (b'a' ∷ b'b' ∷ []) tt

two_keys-reads :
    ((MapHandler.strlen two_keys (b'a' ∷ [])).1 ≡ 1)
    × ((MapHandler.get_values two_keys).1 ≡ (b'x' ∷ []) ∷ [] ∷ [])
    × ((MapHandler.get_all two_keys).1 ≡ two_keys.mhandler)
    × ((MapHandler.count two_keys).1 ≡ 2)
unfolding MapHandler.strlen MapHandler.get MapHandler.get_loop MapHandler.get_values
    MapHandler.get_all MapHandler.copy_loop MapHandler.count str_eq str_cmp map_insert
two_keys-reads = (refl, refl, refl, refl)

create-IsValid_map_example : IsValid (MapHandler.create (b'1' ∷ b'/' ∷ b':' ∷ b'1' ∷ [])).mhandler
create-IsValid_map_example = create-IsValid_map (b'1' ∷ b'/' ∷ b':' ∷ b'1' ∷ []) (omega arith)
