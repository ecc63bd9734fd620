-- ===== src/Keys/Tests.antt =====
-- The theorems on plain keys at a store in memory.
use beryldb.Prelude.{
  ◌≡◌, refl, true, false, ◌&&◌, none, some, [], ◌∷◌, codes, IsBytes, str_eq, arith, ◌==◌,
  if◌then◌else◌,
}
use beryldb.Machine.{ret}
use beryldb.Machine.ℤ.{pos, negsuc}
use beryldb.Codec.{to_bin}
use beryldb.Match.{glob}
use beryldb.Nodes.Split.{Lacks}
use beryldb.Rocks.Memory.{memory, lookup, memory-IsStore}
use beryldb.Query.Types.{QueryType, DblCode, QueryFlags, StrFunction, Query, World, int_key}
use beryldb.Query.{dest_of}
use beryldb.Query.Prepare.{prepare}
use beryldb.Keys.{set, get_run}
use beryldb.Keys.Scan.{listed}
use beryldb.Keys.Laws.{listed-dest_of}
use beryldb.Query.Reads.{Only}
use beryldb.Keys.SetGet.{get-set}

abbrev pub empty : World memory
empty = record {
  databases = λ d. [];
  closing = λ d. false;
  name = λ d. codes "db";
  expires = record { expire_list = []; mute = false; pushed = [] };
  futures = record { future_list = []; mute = false; pushed = [] };
  now = 0;
  attached = [];
}

abbrev pub setting : Query
setting = record {
  finished = false;
  key_required = true;
  mapped = none;
  function = StrFunction.str_to_low;
  flags = QueryFlags.flags_none;
  type = QueryType.write;
  access = DblCode.dbl_none;
  identified = [];
  dest = [];
  base_request = int_key;
  subresult = 0;
  partial = false;
  hesh = [];
  key = codes "k";
  value = codes "v";
  offset = pos 0;
  limit = negsuc 0;
  select_query = 1;
  id = 0;
  response = [];
  vec_data = [];
  mmap = [];
  database = 1;
  transf_db = none;
  counter = 0;
}

abbrev getting : Query
getting = record setting { type = QueryType.read; value = [] }

key-IsBytes : IsBytes (codes "k")
key-IsBytes = (omega arith, tt)

value-IsBytes : IsBytes (codes "v")
value-IsBytes = (omega arith, tt)

Only-key : Only memory [] (codes "k") 1 int_key
unfolding Only lookup
Only-key t m other = refl

get-set_example :
    (q' : Query) × (w' : World memory) × (prepare memory (set memory) setting empty
      ≡ ret (q', w', true))
    × ((g' : Query) × (prepare memory (get_run memory) getting w' ≡ ret (g', w', true))
        × (g'.response ≡ codes "v"))
get-set_example =
    get-set memory setting getting empty ((dest_of (codes "k") 1 int_key, to_bin (codes "v")) ∷ [])
      memory-IsStore (key-IsBytes, value-IsBytes) (refl, refl) (refl, refl) (refl, refl, refl) refl
      refl Only-key refl

type-Lacks : Lacks b':' int_key
type-Lacks = (refl, tt)

listed-dest_of_example : listed (codes "k*") 1 int_key (dest_of (codes "k") 1 int_key) ≡ (
    if glob (codes "k") (codes "k*") && 1 == 1 && str_eq int_key int_key
    then some (codes "k")
    else none)
listed-dest_of_example =
    listed-dest_of (codes "k*") (codes "k") 1 1 int_key int_key key-IsBytes tt type-Lacks tt
