-- ===== src/MultiMapHandler/Tests.antt =====
-- The theorems about the multimap applied to a concrete multimap.
use beryldb.Prelude.{
  refl, str_eq, false, ◌≡◌, [], ◌∷◌, ◌++◌, some, length, str_eq, arith, ◌==◌, if◌then◌else◌,
  str_cmp,
}
use beryldb.Handler.Types.{ok}
use beryldb.MultiMapHandler
use beryldb.MultiMapHandler.{MultiMapHandler, get_vals_loop}
use beryldb.MultiMapHandler.Persist.{IsValid, create-as_string_multimap}
use beryldb.Stl.OrderedLaws.{IsWeaklyAscending}
use beryldb.MultiMapHandler.Laws.{get_vals-add, get_vals-remove}

abbrev same_key : MultiMapHandler
same_key = record {
  mhandler = (b'a' ∷ [], b'x' ∷ []) ∷ (b'a' ∷ [], b'w' ∷ []) ∷ [];
  last_msg = some ok;
}

same_key-IsWeaklyAscending : IsWeaklyAscending same_key.mhandler
unfolding str_cmp
same_key-IsWeaklyAscending = (((λ e. cc), tt), (tt, tt))

same_key-IsValid : IsValid same_key.mhandler
same_key-IsValid = record {
  ascending = same_key-IsWeaklyAscending;
  storable = (
    (tt, (omega arith, tt), (omega arith, tt)),
    ((tt, (omega arith, tt), (omega arith, tt)), tt),
  );
  fits = omega arith;
}

create-as_string_multimap_example :
    (MultiMapHandler.create (MultiMapHandler.as_string same_key)).mhandler ≡ same_key.mhandler
create-as_string_multimap_example = create-as_string_multimap same_key same_key-IsValid

get_vals-add_example :
    (MultiMapHandler.get_vals (MultiMapHandler.add same_key (b'a' ∷ []) (b'y' ∷ [])) (b'a' ∷ [])).1
    ≡ (if str_eq (b'a' ∷ []) (b'a' ∷ [])
        then (MultiMapHandler.get_vals same_key (b'a' ∷ [])).1 ++ (b'y' ∷ []) ∷ []
        else (MultiMapHandler.get_vals same_key (b'a' ∷ [])).1)
get_vals-add_example =
    get_vals-add same_key (b'a' ∷ []) (b'y' ∷ []) (b'a' ∷ []) same_key-IsWeaklyAscending tt

get_vals-remove_example :
    (MultiMapHandler.get_vals (MultiMapHandler.remove same_key (b'b' ∷ [])) (b'a' ∷ [])).1 ≡ (
      if length same_key.mhandler == 1
      then []
      else if str_eq (b'b' ∷ []) (b'a' ∷ [])
      then []
      else (MultiMapHandler.get_vals same_key (b'a' ∷ [])).1)
get_vals-remove_example = get_vals-remove same_key (b'b' ∷ []) (b'a' ∷ []) tt

same_key-reads :
    ((MultiMapHandler.get same_key (b'a' ∷ [])).1 ≡ b'x' ∷ [])
    × ((MultiMapHandler.exists same_key (b'b' ∷ [])).1 ≡ false)
    × ((MultiMapHandler.get_values same_key).1 ≡ (b'x' ∷ []) ∷ (b'w' ∷ []) ∷ [])
    × ((MultiMapHandler.delete same_key (b'a' ∷ [])).0.mhandler ≡ (b'a' ∷ [], b'w' ∷ []) ∷ [])
    × ((MultiMapHandler.count same_key).1 ≡ 2)
unfolding MultiMapHandler.get MultiMapHandler.get_loop MultiMapHandler.exists
    MultiMapHandler.exists_loop MultiMapHandler.get_values MultiMapHandler.delete
    MultiMapHandler.delete_loop MultiMapHandler.count str_eq str_cmp
same_key-reads = (refl, refl, refl, refl, refl)

erased-find : (MultiMapHandler.find (MultiMapHandler.erase same_key) (b'*' ∷ [])).1 ≡ []
unfolding MultiMapHandler.find MultiMapHandler.find_loop MultiMapHandler.erase
erased-find = refl
