-- ===== src/Routed/Tests.antt =====
-- The theorems on keys of any type, timers and differences at concrete inputs.
use beryldb.Prelude.{
  ℕ, ◌≡◌, ◌≢◌, refl, sym, subst, IsNonempty, true, false, none, some, List, [], ◌∷◌, Str, codes,
  str_eq, IsBytes, arith, str_cmp, str_eq_refl, ◌==◌,
}
use beryldb.Machine.{ret}
use beryldb.Codec.{to_bin}
use beryldb.Codec.RoundTrip.{to_bin-IsNonempty}
use beryldb.Expires.{time_result, is_for}
use beryldb.Stl.Timed.{find_first}
use beryldb.Machine.ℤ.{pos}
use beryldb.Rocks.{Rocks}
use beryldb.Rocks.Memory.{
  memory, lookup, apply, memory-IsStore, read_only, read_only-IsStore, memory-Deletes,
  read_only-Deletes,
}
use beryldb.Query.Types.{Query, World, int_key, int_list}
use beryldb.Query.{dest_of, set_ok}
use beryldb.Keys.Tests.{setting}
use beryldb.Routed.{rename, renamenx, transfer, clone, renamed_to, moved_to}
use beryldb.Routed.Laws.{look, Batches, Moves, rename-Moves, transfer-lost, clone-select}
use beryldb.Routed.Timers.{future_exec, file2}
use beryldb.Routed.Timers.Laws.{future_at, Gone, future_exec-Gone, future_exec-sets}

abbrev pub world : (r : Rocks) → r.State → World r
world r s = record {
  databases = λ d. s;
  closing = λ d. false;
  name = λ d. codes "db";
  expires = record { expire_list = []; mute = false; pushed = [] };
  futures = record { future_list = []; mute = false; pushed = [] };
  now = 0;
  attached = [];
}

-- A list under the key `k` that gets the name `n`.
abbrev listed_query : Query
listed_query = record setting {
  identified = int_list;
  dest = dest_of (codes "k") 1 int_list;
  value = codes "n";
  transf_db = some 2;
}

abbrev stored : List (Str × Str)
stored = (dest_of (codes "k") 1 int_list, codes "01100001:") ∷ []

rename-Moves_example :
    Moves memory
      (renamed_to listed_query)
      listed_query
      (world memory stored)
      (rename memory listed_query (world memory stored))
    × Moves memory
        (renamed_to listed_query)
        listed_query
        (world memory stored)
        (renamenx memory listed_query (world memory stored))
unfolding str_eq str_cmp
rename-Moves_example = rename-Moves memory memory-IsStore listed_query (world memory stored) refl

transfer-lost_example :
    (w' : World read_only) × (transfer read_only listed_query (world read_only stored)
      ≡ ret (listed_query, w'))
    × (look read_only listed_query w' listed_query.dest ≡ none)
    × ((d : ℕ)
        → (d == listed_query.database) ≡ false
        → w'.databases d ≡ (world read_only stored).databases d)
unfolding str_eq str_cmp
transfer-lost_example =
    transfer-lost read_only read_only-IsStore listed_query (world read_only stored) 2
      read_only-Deletes refl refl (λ at v. refl)

-- A plain key with a timer that is cloned to the select 7.
abbrev cloned : Query
cloned = record setting {
  identified = int_key;
  dest = dest_of (codes "k") 1 int_key;
  value = codes "7";
}

abbrev timed : World memory
timed = record (world memory ((dest_of (codes "k") 1 int_key, []) ∷ [])) {
  expires = record {
    expire_list =
        (
          90,
          record {
            schedule = 90;
            added = 0;
            epoch = true;
            secs = 90;
            select = 1;
            key = codes "k";
            database = 1;
          },
        )
        ∷ [];
    mute = false;
    pushed = [];
  };
}

memory-Batches : Batches memory
memory-Batches s ops = (apply s ops, refl)

timed_until : time_result (find_first (is_for 1 (codes "k") 1) timed.expires.expire_list) ≡ pos 90
unfolding time_result find_first str_eq str_cmp
timed_until = refl

key_stored : look memory cloned timed cloned.dest ≡ some []
unfolding lookup
key_stored = rw (str_eq_refl (dest_of (codes "k") 1 int_key)) refl

digits-ne-nil : [] ≢ to_bin (codes "7")
digits-ne-nil e = absurd (subst IsNonempty (sym e) (to_bin-IsNonempty (codes "7") tt))

clone-select_example :
    (w' : World memory) × (clone memory cloned timed ≡ ret (set_ok (record cloned { id = 90 }), w'))
    × (look memory cloned w' (moved_to cloned) ≡ some (to_bin cloned.value))
    × (look memory cloned w' (moved_to cloned) ≢ look memory cloned timed cloned.dest)
clone-select_example =
    clone-select memory memory-IsStore cloned timed 89 [] memory-Batches refl refl timed_until
      key_stored digits-ne-nil

abbrev future_query : Query
future_query = record setting { base_request = [] }

abbrev futures : List (Str × Str)
futures = (future_at memory future_query (world memory []), codes "90:text") ∷ []

future_exec-Gone_example :
    Gone memory future_query
      (world memory futures)
      (future_exec memory future_query (world memory futures))
future_exec-Gone_example =
    future_exec-Gone memory memory-IsStore memory-Deletes future_query (world memory futures) refl

key-IsBytes : IsBytes (codes "k")
key-IsBytes = (omega arith, tt)

found_future :
    look memory future_query
      (world memory futures)
      (future_at memory future_query (world memory futures))
    ≡ some (codes "90:text")
unfolding lookup
found_future = rw (str_eq_refl (future_at memory future_query (world memory []))) refl

future_exec-sets_example :
    (q' : Query) × (w' : World memory) × (future_exec memory future_query (world memory futures)
      ≡ ret (q', w'))
    × (q'.finished ≡ true)
    × (look memory future_query w' (dest_of (codes "k") 1 int_key)
        ≡ some (to_bin (file2 (codes "90:text"))))
    × (look memory future_query w' (future_at memory future_query (world memory futures)) ≡ none)
future_exec-sets_example =
    future_exec-sets memory memory-IsStore memory-Deletes future_query (world memory futures)
      (codes "90:text") _ key-IsBytes refl found_future refl
