-- ===== src/MapHandler.antt =====
-- include/brldb/map_handler.h and src/brldb/map_handler.cpp: the map behind one key. The constructor
-- leaves `LastMsg` indeterminate, which is `none`; `Dump` only prints, and the destructor frees.
pub mod Persist
pub mod Valid
pub mod Laws
pub mod Tests
use beryldb.Prelude.{
  ℕ, zero, suc, ◌+◌, Bool, true, false, Option, none, some, List, [], ◌∷◌, ◌++◌, map, Str, is_empty,
  length, take, drop, ◌==◌, str_eq, if◌then◌else◌,
}
use mathlib.Core.Option
use beryldb.Machine.{incr32, to_u32}
use beryldb.Codec.{to_bin, to_string}
use beryldb.Nodes.{colon_node_stream, all_items, index_of}
use beryldb.Handler.Types.{HandlerMsg, not_found, ok, invalid}
use beryldb.Stl.{is_nil}
use beryldb.Stl.Ordered.{Pairs, map_insert, erase_key}

pub record MapHandler : Type 0 where
  pub mhandler : Pairs
  pub last_msg : Option HandlerMsg

pub new : MapHandler
new = record { mhandler = []; last_msg = none }

exists_loop : Str → Pairs → Bool
exists_loop word [] = false
exists_loop word ((item, v) ∷ m) =
    let rest = exists_loop word m in if str_eq word item then true else rest

pub exists : MapHandler → Str → MapHandler × Bool
unfolding exists_loop
exists h word =
    if is_nil h.mhandler
    then (record h { last_msg = some not_found }, false)
    else if exists_loop word h.mhandler
    then (record h { last_msg = some ok }, true)
    else (record h { last_msg = some not_found }, false)

-- The pairs without the first one with the key, `none` where there is none.
delete_loop : Str → Pairs → Option Pairs
delete_loop key [] = none
delete_loop key ((item, v) ∷ m) =
    let rest = Option.map (λ m'. (item, v) ∷ m') (delete_loop key m) in
    if str_eq item key then some m else rest

pub delete : MapHandler → Str → MapHandler × Bool
unfolding delete_loop
delete h key = if is_nil h.mhandler then (h, false) else elim (delete_loop key h.mhandler) [
  | none ↦ (record h { last_msg = some not_found }, false)
  | some m ↦ (record { mhandler = m; last_msg = some ok }, true)
]

pub add : MapHandler → Str → Str → MapHandler
add h key value =
    if is_empty key
    then record h { last_msg = some invalid }
    else record { mhandler = map_insert key value (erase_key key h.mhandler); last_msg = some ok }

-- `mask.substr(0, found)` and `mask.substr(found + 1)`: with no slash, npos + 1 is 0, and both are the
-- whole mask.
pub path_of : Str → Option ℕ → Str
path_of mask none = mask
path_of mask (some found) = take found mask

pub file_of : Str → Option ℕ → Str
file_of mask none = mask
file_of mask (some found) = drop (found + 1) mask

add_each : MapHandler → List Str → MapHandler
unfolding path_of file_of
add_each h [] = h
add_each h (mask ∷ masks) =
    let found = index_of b'/' mask in
    add_each (add h (to_string (path_of mask found)) (to_string (file_of mask found))) masks

pub create : Str → MapHandler
create load = add_each new (all_items (colon_node_stream load))

get_loop : Str → Pairs → Option Str
get_loop key [] = none
get_loop key ((item, val) ∷ m) =
    let rest = get_loop key m in if str_eq item key then some val else rest

pub get : MapHandler → Str → MapHandler × Str
unfolding get_loop
get h key = elim (get_loop key h.mhandler) [
  | none ↦ (record h { last_msg = some not_found }, [])
  | some val ↦ (record h { last_msg = some ok }, val)
]

pub strlen : MapHandler → Str → MapHandler × ℕ
unfolding get
strlen h key = let (h', val) = get h key in (h', to_u32 (length val))

pub erase : MapHandler → MapHandler
erase h = record { mhandler = []; last_msg = some ok }

-- An only pair is erased whatever the key is.
pub remove : MapHandler → Str → MapHandler
unfolding erase
remove h key =
    if is_empty key
    then record h { last_msg = some invalid }
    else if length h.mhandler == 1
    then erase h
    else record { mhandler = erase_key key h.mhandler; last_msg = some ok }

as_string_loop : ℕ → ℕ → Pairs → Str
as_string_loop size counter [] = []
as_string_loop size counter ((key, value) ∷ m) =
    (if counter == size then [] else to_bin key ++ b'/' ∷ to_bin value ++ b':' ∷ [])
    ++ as_string_loop size (incr32 counter) m

pub as_string : MapHandler → Str
unfolding as_string_loop
as_string h = as_string_loop (to_u32 (length h.mhandler)) 0 h.mhandler

-- The result is filled pair by pair.
copy_loop : Pairs → Pairs → Pairs
copy_loop result [] = result
copy_loop result ((key, value) ∷ m) = copy_loop (map_insert key value result) m

pub get_all : MapHandler → MapHandler × Pairs
unfolding copy_loop
get_all h = (record h { last_msg = some ok }, copy_loop [] h.mhandler)

pub get_values : MapHandler → MapHandler × List Str
get_values h = (record h { last_msg = some ok }, map (λ p. p.1) h.mhandler)

pub count : MapHandler → MapHandler × ℕ
count h = (record h { last_msg = some ok }, to_u32 (length h.mhandler))
