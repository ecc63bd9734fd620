-- ===== src/Routed/Diff/Tests.antt =====
-- DIFF at two lists and two maps of a store in memory.
use beryldb.Prelude.{◌≡◌, refl, ◌&&◌, not, some, List, [], ◌∷◌, Str, codes, str_eq_refl}
use beryldb.Stl.{mem}
use beryldb.ListHandler
use beryldb.MapHandler
use beryldb.MapHandler.Tests.{two_keys}
use beryldb.Rocks.Memory.{memory, lookup}
use beryldb.Query.Types.{Query, World, int_list, int_map}
use beryldb.Query.{dest_of, get, or_empty}
use beryldb.Keys.Tests.{setting}
use beryldb.Routed.Tests.{world}
use beryldb.Routed.Diff.{diff}
use beryldb.Routed.Diff.Laws.{Lists, diff-lists}

-- The key `k` against the key `n`.
abbrev lists_query : Query
lists_query = record setting {
  identified = int_list;
  dest = dest_of (codes "k") 1 int_list;
  value = codes "n";
}

abbrev lists : World memory
lists = world memory (
    (dest_of (codes "n") 1 int_list, codes "01100010:")
    ∷ (dest_of (codes "k") 1 int_list, codes "01100001:")
    ∷ [])

other_list :
    memory.get (lists.databases 1) (dest_of (codes "n") 1 int_list) ≡ some (codes "01100010:")
unfolding lookup
other_list = rw (str_eq_refl (dest_of (codes "n") 1 int_list)) refl

diff-lists_example :
    (items : List Str) × Lists memory lists_query lists (diff memory lists_query lists) items
    × ((x : Str)
        → mem x items ≡ (
            mem x (ListHandler.get_list (ListHandler.create (codes "01100010:")))
            && not (
                mem x (
                  ListHandler.get_list (
                    ListHandler.create
                      (or_empty (get memory lists_query lists lists_query.dest)))))))
diff-lists_example = diff-lists memory lists_query lists (codes "01100010:") refl refl other_list

-- The key `k` has a map with two keys, and is compared with itself.
abbrev maps_query : Query
maps_query = record setting {
  identified = int_map;
  dest = dest_of (codes "k") 1 int_map;
  value = codes "k";
}

abbrev maps : World memory
maps = world memory ((dest_of (codes "k") 1 int_map, MapHandler.as_string two_keys) ∷ [])
