-- ===== src/MultiMapHandler.antt =====
-- include/brldb/multimap_handler.h and src/brldb/multimap_handler.cpp: the multimap behind one key. The constructor
-- leaves `LastMsg` indeterminate, which is `none`; `Dump` only prints, and the destructor frees.
pub mod Persist
pub mod Laws
pub mod Tests
use beryldb.Prelude.{
  ℕ, zero, suc, ◌+◌, Bool, true, false, Option, none, some, List, [], ◌∷◌, ◌++◌, map, Str, is_empty,
  length, take, drop, ◌==◌, str_eq, if◌then◌else◌,
}
use mathlib.Core.Option
use beryldb.Machine.{incr32, to_u32}
use beryldb.Codec.{to_bin, to_string}
use beryldb.Nodes.{colon_node_stream, all_items, index_of}
use beryldb.Match.{glob}
use beryldb.Handler.Types.{HandlerMsg, not_found, ok, invalid}
use beryldb.Stl.{is_nil}
use beryldb.Stl.Ordered.{Pairs, multimap_insert, erase_key, count_key}

pub record MultiMapHandler : Type 0 where
  pub mhandler : Pairs
  pub last_msg : Option HandlerMsg

pub new : MultiMapHandler
new = record { mhandler = []; last_msg = none }

exists_loop : Str → Pairs → Bool
exists_loop word [] = false
exists_loop word ((item, v) ∷ m) =
    let rest = exists_loop word m in if str_eq item word then true else rest

pub exists : MultiMapHandler → Str → MultiMapHandler × Bool
unfolding exists_loop
exists h word =
    if is_nil h.mhandler
    then (h, false)
    else if exists_loop word h.mhandler
    then (record h { last_msg = some ok }, true)
    else (record h { last_msg = some not_found }, false)

-- The pairs without the first one with the key, `none` where there is none.
delete_loop : Str → Pairs → Option Pairs
delete_loop key [] = none
delete_loop key ((item, v) ∷ m) =
    let rest = Option.map (λ m'. (item, v) ∷ m') (delete_loop key m) in
    if str_eq item key then some m else rest

pub delete : MultiMapHandler → Str → MultiMapHandler × Bool
unfolding delete_loop
delete h key = if is_nil h.mhandler then (h, false) else elim (delete_loop key h.mhandler) [
  | none ↦ (record h { last_msg = some not_found }, false)
  | some m ↦ (record { mhandler = m; last_msg = some ok }, true)
]

pub add : MultiMapHandler → Str → Str → MultiMapHandler
add h key value =
    if is_empty key
    then record h { last_msg = some invalid }
    else record { mhandler = multimap_insert key value h.mhandler; last_msg = some ok }

-- `mask.substr(0, found)` and `mask.substr(found + 1)`: with no slash, npos + 1 is 0, and both are the
-- whole mask.
pub path_of : Str → Option ℕ → Str
path_of mask none = mask
path_of mask (some found) = take found mask

pub file_of : Str → Option ℕ → Str
file_of mask none = mask
file_of mask (some found) = drop (found + 1) mask

add_each : MultiMapHandler → List Str → MultiMapHandler
unfolding path_of file_of
add_each h [] = h
add_each h (mask ∷ masks) =
    let found = index_of b'/' mask in
    add_each (add h (to_string (path_of mask found)) (to_string (file_of mask found))) masks

pub create : Str → MultiMapHandler
create load = add_each new (all_items (colon_node_stream load))

get_loop : Str → Pairs → Option Str
get_loop key [] = none
get_loop key ((item, val) ∷ m) =
    let rest = get_loop key m in if str_eq item key then some val else rest

pub get : MultiMapHandler → Str → MultiMapHandler × Str
unfolding get_loop
get h key = elim (get_loop key h.mhandler) [
  | none ↦ (record h { last_msg = some not_found }, [])
  | some val ↦ (record h { last_msg = some ok }, val)
]

pub erase : MultiMapHandler → MultiMapHandler
erase h = record { mhandler = []; last_msg = some ok }

-- An only pair is erased whatever the key is.
pub remove : MultiMapHandler → Str → MultiMapHandler
unfolding erase
remove h key =
    if is_empty key
    then record h { last_msg = some invalid }
    else if length h.mhandler == 1
    then erase h
    else record { mhandler = erase_key key h.mhandler; last_msg = some ok }

as_string_loop : ℕ → ℕ → Pairs → Str
as_string_loop size counter [] = []
as_string_loop size counter ((key, value) ∷ m) =
    (if counter == size then [] else to_bin key ++ b'/' ∷ to_bin value ++ b':' ∷ [])
    ++ as_string_loop size (incr32 counter) m

pub as_string : MultiMapHandler → Str
unfolding as_string_loop
as_string h = as_string_loop (to_u32 (length h.mhandler)) 0 h.mhandler

-- The result is filled pair by pair.
copy_loop : Pairs → Pairs → Pairs
copy_loop result [] = result
copy_loop result ((key, value) ∷ m) = copy_loop (multimap_insert key value result) m

pub get_all : MultiMapHandler → MultiMapHandler × Pairs
unfolding copy_loop
get_all h = (record h { last_msg = some ok }, copy_loop [] h.mhandler)

pub get_values : MultiMapHandler → MultiMapHandler × List Str
get_values h = (record h { last_msg = some ok }, map (λ p. p.1) h.mhandler)

pub count : MultiMapHandler → MultiMapHandler × ℕ
count h = (record h { last_msg = some ok }, to_u32 (length h.mhandler))

pub repeats : MultiMapHandler → Str → MultiMapHandler × ℕ
repeats h key = (record h { last_msg = some ok }, to_u32 (count_key key h.mhandler))

-- The keys whose value matches.
find_loop : Str → Pairs → List Str
find_loop key [] = []
find_loop key ((item, val) ∷ m) =
    let rest = find_loop key m in if glob val key then item ∷ rest else rest

pub find : MultiMapHandler → Str → MultiMapHandler × List Str
unfolding find_loop
find h key = (record h { last_msg = some ok }, find_loop key h.mhandler)

get_vals_loop : Str → List Str → Pairs → List Str
get_vals_loop key results [] = results
get_vals_loop key results ((item, val) ∷ m) =
    get_vals_loop key (if str_eq key item then results ++ val ∷ [] else results) m

pub get_vals : MultiMapHandler → Str → MultiMapHandler × List Str
unfolding get_vals_loop
get_vals h key = (record h { last_msg = some ok }, get_vals_loop key [] h.mhandler)
