-- ===== src/Lists/Tests.antt =====
-- The theorems on the list commands at a store in memory.
use beryldb.Prelude.{
  ◌≡◌, refl, true, false, none, some, List, [], ◌∷◌, Str, codes, IsBytes, str_eq, str_cmp, arith,
}
use beryldb.Machine.{ret, fault}
use beryldb.Machine.ℤ.{pos, negsuc}
use beryldb.Rocks.Memory.{memory, lookup, memory-IsStore}
use beryldb.Query.Types.{QueryType, DblCode, QueryFlags, StrFunction, Query, World, int_list}
use beryldb.Query.{
  get, write, store_of, put_result, set_store, registry_loop, registered, get_registry,
}
use beryldb.Query.Classes.{construct}
use beryldb.Query.Prepare.{Prepared, prepare, check, check_key, dispatch, write_case}
use beryldb.Query.Registered.{IsTyped}
use beryldb.ListHandler
use beryldb.Lists.{lpush, lpush_new}
use beryldb.Lists.Spec.{push, run}
use beryldb.Query.Kinds.{prepare-IsTyped}
use beryldb.Lists.Local.{run-IsLocal}
use beryldb.Lists.Typed.{class_of, class_of-list, class_of-Kind, command-IsTyped}

-- A list "a" at the place "x" of database 1.
abbrev stored : List (Str × Str)
stored = (codes "x", codes "01100001:") ∷ []

abbrev here : World memory
here = record {
  databases = λ d. stored;
  closing = λ d. false;
  name = λ d. codes "db";
  expires = record { expire_list = []; mute = false; pushed = [] };
  futures = record { future_list = []; mute = false; pushed = [] };
  now = 0;
  attached = [];
}

abbrev empty : World memory
empty = record here { databases = λ d. [] }

abbrev asked : Query
asked = record {
  finished = false;
  key_required = false;
  mapped = none;
  function = StrFunction.str_to_low;
  flags = QueryFlags.flags_none;
  type = QueryType.write;
  access = DblCode.dbl_none;
  identified = [];
  dest = codes "x";
  base_request = int_list;
  subresult = 0;
  partial = false;
  hesh = [];
  key = codes "k";
  value = codes "b";
  offset = pos 0;
  limit = negsuc 0;
  select_query = 1;
  id = 0;
  response = [];
  vec_data = [];
  mmap = [];
  database = 1;
  transf_db = none;
  counter = 0;
}

key-IsBytes : IsBytes (codes "k")
key-IsBytes = (omega arith, tt)

none-some : {v : Str} → none ≡ some v → ⊥
none-some e = cc

nothing : (at v : Str) → memory.get [] at ≡ some v → ⊥
unfolding lookup
nothing at v e = none-some e

empty-IsTyped : IsTyped memory []
unfolding IsTyped
empty-IsTyped key select t t' b m m' s s' = absurd (nothing _ s.0 s.1)

abbrev query_in : Prepared memory → Query
query_in (ret (q, w, b)) = q
query_in (fault e) = asked

abbrev world_in : Prepared memory → World memory
world_in (ret (q, w, b)) = w
world_in (fault e) = empty

abbrev pushed : Prepared memory
pushed = prepare memory (run memory push) (construct (class_of push) asked) empty

pushed-ret : pushed ≡ ret (query_in pushed, world_in pushed, true)
unfolding prepare check check_key dispatch write_case get_registry registry_loop registered lookup
    run lpush lpush_new ListHandler.add ListHandler.new ListHandler.get_last construct class_of
    str_eq str_cmp write put_result set_store store_of get
pushed-ret = refl

command-IsTyped_example : IsTyped memory ((world_in pushed).databases 1)
command-IsTyped_example =
    command-IsTyped memory push asked (query_in pushed) empty (world_in pushed) true memory-IsStore
      empty-IsTyped key-IsBytes pushed-ret

prepare-IsTyped_example : IsTyped memory ((world_in pushed).databases 1)
unfolding construct
prepare-IsTyped_example =
    prepare-IsTyped memory (run memory push) (construct (class_of push) asked) (query_in pushed)
      empty (world_in pushed) true (run-IsLocal memory memory-IsStore push) empty-IsTyped
      key-IsBytes (class_of-list push asked) (class_of-Kind push asked) pushed-ret
