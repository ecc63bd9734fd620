-- ===== src/ListHandler.antt =====
-- include/brldb/list_handler.h and src/brldb/list_handler.cpp: the list behind one key. The
-- constructor leaves `LastMsg` indeterminate, which is `none`; `Dump` only prints.
pub mod Persist
pub mod Laws
pub mod Invariant
pub mod Resize
pub mod Tests
use beryldb.Prelude.{
  ℕ, zero, suc, ◌+◌, ◌-◌, Bool, true, false, Option, none, some, List, [], ◌∷◌, ◌++◌, Str, is_empty,
  length, leb, ltb, ◌==◌, str_eq, if◌then◌else◌,
}
use beryldb.Machine.{incr32, to_u32, Outcome, ret, fault, null_string, dangling, empty_front}
use beryldb.Codec.{to_bin, to_string, is_number}
use beryldb.Nodes.{colon_node_stream, all_items}
use beryldb.Handler.Types.{HandlerMsg, not_found, ok, invalid, Double}
use beryldb.Handler.Loops.{
  index_loop, repeats_loop, as_string_loop, find_loop, is_numeric_loop, sum_loop, low_loop,
  high_loop,
}
use beryldb.Stl.{is_nil, back_or, mem, erase_first, remove_all}
use beryldb.Stl
use mathlib.Core.List

pub record ListHandler : Type 0 where
  pub mhandler : List Str
  pub last_msg : Option HandlerMsg

unfoldable pub new : ListHandler
new = record { mhandler = []; last_msg = none }

unfoldable pub get_last : ListHandler → Option HandlerMsg
get_last h = h.last_msg

pub get_list : ListHandler → List Str
get_list h = h.mhandler

unfoldable pub add : ListHandler → Str → ListHandler
add h key =
    if is_empty key
    then record h { last_msg = some invalid }
    else record { mhandler = h.mhandler ++ key ∷ []; last_msg = some ok }

add_each : ListHandler → List Str → ListHandler
add_each h [] = h
add_each h (mask ∷ masks) = add_each (add h (to_string mask)) masks

pub create : Str → ListHandler
create load = add_each new (all_items (colon_node_stream load))

unfoldable pub erase : ListHandler → ListHandler
erase h = record { mhandler = []; last_msg = some ok }

unfoldable pub pop_front : ListHandler → ListHandler
unfolding erase
pop_front h = elim h.mhandler [
  | [] ↦ record h { last_msg = some ok }
  | x ∷ [] ↦ erase h
  | x ∷ y ∷ l ↦ record { mhandler = y ∷ l; last_msg = some ok }
]

unfoldable pub pop_back : ListHandler → ListHandler
unfolding erase
pop_back h = elim h.mhandler [
  | [] ↦ record h { last_msg = some not_found }
  | x ∷ [] ↦ erase h
  | x ∷ y ∷ l ↦ record { mhandler = Stl.pop_back (x ∷ y ∷ l); last_msg = some ok }
]

unfoldable pub exist : ListHandler → Str → Bool
exist h key = mem key h.mhandler

-- An only element is erased whatever the key is.
unfoldable pub pop_all : ListHandler → Str → ListHandler
unfolding erase
pop_all h key =
    if is_empty key
    then record h { last_msg = some invalid }
    else if length h.mhandler == 1
    then erase h
    else record { mhandler = remove_all key h.mhandler; last_msg = some ok }

found_at : ListHandler → Option Str → ListHandler × Str
found_at h none = (record h { last_msg = some not_found }, [])
found_at h (some item) = (record h { last_msg = some ok }, item)

-- On the empty list the function returns 0, from which a std::string is built.
pub index : ListHandler → ℕ → Outcome (ListHandler × Str)
unfolding index_loop found_at
index h pos =
    if is_nil h.mhandler then fault null_string else ret (found_at h (index_loop pos 0 h.mhandler))

pub repeats : ListHandler → Str → ListHandler × ℕ
unfolding repeats_loop
repeats h word =
    if is_nil h.mhandler
    then (h, 0)
    else (record h { last_msg = some ok }, repeats_loop word 0 h.mhandler)

unfoldable pub remove : ListHandler → Str → ListHandler
remove h key = if is_nil h.mhandler then h else elim (erase_first key h.mhandler) [
  | none ↦ record h { last_msg = some ok }
  | some l ↦ record { mhandler = l; last_msg = some ok }
]

pub as_string : ListHandler → Str
unfolding as_string_loop
as_string h = as_string_loop (to_u32 (length h.mhandler)) 0 h.mhandler

pub find : ListHandler → Str → ListHandler × List Str
unfolding find_loop
find h key = (record h { last_msg = some ok }, find_loop key h.mhandler)

unfoldable pub rpop : ListHandler → ListHandler × Str
rpop h =
    if is_nil h.mhandler
    then (record h { last_msg = some not_found }, [])
    else (record { mhandler = Stl.pop_back h.mhandler; last_msg = some ok }, back_or [] h.mhandler)

pub front : ListHandler → ListHandler × Str
front h = elim h.mhandler [
  | [] ↦ (record h { last_msg = some not_found }, [])
  | item ∷ l ↦ (record h { last_msg = some ok }, item)
]

pub back : ListHandler → ListHandler × Str
back h =
    if is_nil h.mhandler
    then (record h { last_msg = some not_found }, [])
    else (record h { last_msg = some ok }, back_or [] h.mhandler)

-- `item` is a reference to the first node, which `pop_front` destroys before the result is copied.
unfoldable pub fpop : ListHandler → Outcome (ListHandler × Str)
fpop h = elim h.mhandler [
  | [] ↦ ret (record h { last_msg = some not_found }, [])
  | item ∷ l ↦ fault dangling
]

unfoldable pub count : ListHandler → ListHandler × ℕ
count h = (record h { last_msg = some ok }, to_u32 (length h.mhandler))

unfoldable pub reverse : ListHandler → ListHandler
reverse h = record { mhandler = List.reverse h.mhandler; last_msg = some ok }

pub resize : ListHandler → ℕ → ListHandler
resize h size = record { mhandler = Stl.resize size h.mhandler; last_msg = some ok }

pub sort : ListHandler → ListHandler
sort h = record { mhandler = Stl.sort h.mhandler; last_msg = some ok }

-- `IsNumeric` and the statistics leave the handler as it is.
pub is_numeric : ListHandler → Bool
unfolding is_numeric_loop
is_numeric h = is_numeric_loop h.mhandler

module _ (d : Double) where
  open d use {Num, convto_num}

  pub get_sma : ListHandler → Num
  unfolding sum_loop
  get_sma h = d.div (sum_loop d d.zero h.mhandler) (d.of_count (length h.mhandler))

  pub get_low : ListHandler → Outcome Num
  unfolding low_loop
  get_low h = elim h.mhandler [
    | [] ↦ fault empty_front
    | x ∷ l ↦ ret (low_loop d (convto_num x) (x ∷ l))
  ]

  pub get_high : ListHandler → Num
  unfolding high_loop
  get_high h = high_loop d d.zero h.mhandler
