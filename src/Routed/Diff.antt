-- ===== src/Routed/Diff.antt =====
-- src/brldb/diff.cpp and src/brldb/diff_hints.cpp: what one value has and another has not, for values of any type.
use beryldb.Prelude.{
  ℕ, Bool, true, false, not, ◌||◌, Option, none, some, List, [], ◌∷◌, Str, codes, str_eq, map,
  if◌then◌else◌,
}
use beryldb.Machine.{Outcome, ret}
use beryldb.Stl.{mem}
use beryldb.ListHandler
use beryldb.VectorHandler
use beryldb.MapHandler
use beryldb.MultiMapHandler
use beryldb.Stl.Ordered.{Pairs}
use beryldb.Rocks.{Rocks}
use beryldb.Query.Types.{
  DblCode, Query, World, int_key, int_map, int_mmap, int_geo, int_list, int_vector,
}
use beryldb.Query.{dest_of, get, access_set, or_empty, store_of}
use beryldb.Query.Prepare.{Run}
use beryldb.Query.Replies.{paged}
use beryldb.Query.Paging.{page_loop, start}
pub mod Laws
pub mod Tests

-- `CompareList` and `CompareVector`: the elements that are not in the other.
unfoldable pub compare_list : List Str → List Str → List Str
unfolding mem
compare_list [] list2 = []
compare_list (item ∷ list) list2 =
    let rest = compare_list list list2 in if mem item list2 then rest else item ∷ rest

-- `found` behind the loop over the other map: some key of it is not the item.
unfoldable pub some_other : Str → Pairs → Bool
some_other item [] = false
some_other item ((item2, value) ∷ list2) = not (str_eq item2 item) || some_other item list2

-- `CompareMap` and `CompareMultiMap`.
unfoldable pub compare_map : Pairs → Pairs → List Str
unfolding some_other
compare_map [] list2 = []
compare_map ((item, value) ∷ list) list2 =
    let rest = compare_map list list2 in if some_other item list2 then item ∷ rest else rest

module _ (r : Rocks) where
  -- The value of the other key, or `access_set(DBL_NOT_FOUND)`.
  unfoldable pub with_other :
      Query → World r → (Str → Outcome (Query × World r)) → Outcome (Query × World r)
  unfolding dest_of store_of
  with_other q w k =
      elim (r.get (store_of r q.database w) (dest_of q.value q.select_query q.identified)) [
        | none ↦ ret (access_set DblCode.not_found q, w)
        | some dbvalue ↦ k dbvalue
      ]

  unfoldable pub diff_pages : Query → World r → List Str → Outcome (Query × World r)
  diff_pages q w flist = let p = page_loop q.offset q.limit flist start in paged r q w p p.aux

  -- For a plain key the reply is 0 where the values are equal; for a geo it is 1.
  unfoldable pub diff_value : Str → Str → Run r
  unfolding with_other
  diff_value same other q w = with_other q w λ dbvalue.
      let equal = str_eq (or_empty (get r q w q.dest)) dbvalue in
      ret (record q { response = if equal then same else other }, w)

  pub diff_keys : Run r
  unfolding diff_value
  diff_keys q w = diff_value (codes "0") (codes "1") q w

  pub diff_geos : Run r
  unfolding diff_value
  diff_geos q w = diff_value (codes "1") (codes "0") q w

  unfoldable pub diff_maps : Run r
  unfolding with_other diff_pages compare_map
  diff_maps q w = with_other q w λ v.
      let handler1 = MapHandler.create (or_empty (get r q w q.dest)) in
      diff_pages q w (compare_map (MapHandler.create v).mhandler handler1.mhandler)

  unfoldable pub diff_multis : Run r
  unfolding with_other diff_pages compare_map
  diff_multis q w = with_other q w λ v.
      let handler1 = MultiMapHandler.create (or_empty (get r q w q.dest)) in
      diff_pages q w (compare_map (MultiMapHandler.create v).mhandler handler1.mhandler)

  unfoldable pub diff_vectors : Run r
  unfolding with_other diff_pages compare_list
  diff_vectors q w = with_other q w λ v.
      let list1 = VectorHandler.get_list (VectorHandler.create (or_empty (get r q w q.dest))) in
      diff_pages q w (compare_list (VectorHandler.get_list (VectorHandler.create v)) list1)

  unfoldable pub diff_lists : Run r
  unfolding with_other diff_pages compare_list
  diff_lists q w = with_other q w λ v.
      let list1 = ListHandler.get_list (ListHandler.create (or_empty (get r q w q.dest))) in
      diff_pages q w (compare_list (ListHandler.get_list (ListHandler.create v)) list1)

  unfoldable pub diff : Run r
  unfolding diff_keys diff_maps diff_multis diff_geos diff_lists diff_vectors
  diff q w =
      if str_eq q.identified int_key
      then diff_keys q w
      else if str_eq q.identified int_map
      then diff_maps q w
      else if str_eq q.identified int_mmap
      then diff_multis q w
      else if str_eq q.identified int_geo
      then diff_geos q w
      else if str_eq q.identified int_list
      then diff_lists q w
      else if str_eq q.identified int_vector
      then diff_vectors q w
      else ret (q, w)
