-- ===== src/VectorHandler.antt =====
-- include/brldb/vector_handler.h and src/brldb/vector_handler.cpp: the vector behind one key. The
-- constructor leaves `LastMsg` indeterminate, which is `none`; `Dump` only prints.
pub mod Persist
pub mod Laws
pub mod Tests
use beryldb.Prelude.{
  ℕ, zero, suc, ◌+◌, ◌-◌, Bool, true, false, Option, none, some, List, [], ◌∷◌, ◌++◌, Str, is_empty,
  length, leb, ltb, ◌==◌, str_eq, if◌then◌else◌,
}
use beryldb.Machine.{incr32, to_u32, Outcome, ret, fault, null_string, erase_end, empty_front}
use beryldb.Codec.{to_bin, to_string, is_number}
use beryldb.Nodes.{colon_node_stream, all_items}
use beryldb.Handler.Types.{HandlerMsg, not_found, ok, invalid, Double}
use beryldb.Handler.Loops.{
  index_loop, repeats_loop, as_string_loop, find_loop, is_numeric_loop, sum_loop, low_loop,
  high_loop,
}
use beryldb.Stl.{is_nil, back_or, mem, erase_first}
use beryldb.Stl
use mathlib.Core.List

pub record VectorHandler : Type 0 where
  pub mhandler : List Str
  pub last_msg : Option HandlerMsg

pub new : VectorHandler
new = record { mhandler = []; last_msg = none }

pub get_last : VectorHandler → Option HandlerMsg
get_last h = h.last_msg

pub get_list : VectorHandler → List Str
get_list h = h.mhandler

pub add : VectorHandler → Str → VectorHandler
add h key =
    if is_empty key
    then record h { last_msg = some invalid }
    else record { mhandler = h.mhandler ++ key ∷ []; last_msg = some ok }

add_each : VectorHandler → List Str → VectorHandler
add_each h [] = h
add_each h (mask ∷ masks) = add_each (add h (to_string mask)) masks

pub create : Str → VectorHandler
create load = add_each new (all_items (colon_node_stream load))

pub erase : VectorHandler → VectorHandler
erase h = record { mhandler = []; last_msg = some ok }

pub pop_front : VectorHandler → VectorHandler
unfolding erase
pop_front h = elim h.mhandler [
  | [] ↦ record h { last_msg = some ok }
  | x ∷ [] ↦ erase h
  | x ∷ y ∷ l ↦ record { mhandler = y ∷ l; last_msg = some ok }
]

pub pop_back : VectorHandler → VectorHandler
unfolding erase
pop_back h = elim h.mhandler [
  | [] ↦ record h { last_msg = some not_found }
  | x ∷ [] ↦ erase h
  | x ∷ y ∷ l ↦ record { mhandler = Stl.pop_back (x ∷ y ∷ l); last_msg = some ok }
]

pub exist : VectorHandler → Str → Bool
exist h key = mem key h.mhandler

found_at : VectorHandler → Option Str → VectorHandler × Str
found_at h none = (record h { last_msg = some not_found }, [])
found_at h (some item) = (record h { last_msg = some ok }, item)

-- On the empty list the function returns 0, from which a std::string is built.
pub index : VectorHandler → ℕ → Outcome (VectorHandler × Str)
unfolding index_loop found_at
index h pos =
    if is_nil h.mhandler then fault null_string else ret (found_at h (index_loop pos 0 h.mhandler))

pub repeats : VectorHandler → Str → VectorHandler × ℕ
unfolding repeats_loop
repeats h word =
    if is_nil h.mhandler
    then (h, 0)
    else (record h { last_msg = some ok }, repeats_loop word 0 h.mhandler)

-- An only element is erased whatever the key is; where the key is missing the end is erased.
pub remove : VectorHandler → Str → Outcome VectorHandler
unfolding erase
remove h key =
    if is_empty key
    then ret (record h { last_msg = some invalid })
    else if length h.mhandler == 1
    then ret (erase h)
    else elim (erase_first key h.mhandler) [
      | none ↦ fault erase_end
      | some l ↦ ret (record { mhandler = l; last_msg = some ok })
    ]

pub as_string : VectorHandler → Str
unfolding as_string_loop
as_string h = as_string_loop (to_u32 (length h.mhandler)) 0 h.mhandler

pub find : VectorHandler → Str → VectorHandler × List Str
unfolding find_loop
find h key = (record h { last_msg = some ok }, find_loop key h.mhandler)

pub front : VectorHandler → VectorHandler × Str
front h = elim h.mhandler [
  | [] ↦ (record h { last_msg = some not_found }, [])
  | item ∷ l ↦ (record h { last_msg = some ok }, item)
]

pub back : VectorHandler → VectorHandler × Str
back h =
    if is_nil h.mhandler
    then (record h { last_msg = some not_found }, [])
    else (record h { last_msg = some ok }, back_or [] h.mhandler)

pub count : VectorHandler → VectorHandler × ℕ
count h = (record h { last_msg = some ok }, to_u32 (length h.mhandler))

-- `Reverse` leaves the message.
pub reverse : VectorHandler → VectorHandler
reverse h = record h { mhandler = List.reverse h.mhandler }

pub resize : VectorHandler → ℕ → VectorHandler
resize h size = record { mhandler = Stl.resize size h.mhandler; last_msg = some ok }

pub sort : VectorHandler → VectorHandler
sort h = record { mhandler = Stl.sort h.mhandler; last_msg = some ok }

-- `IsNumeric` and the statistics leave the handler as it is.
pub is_numeric : VectorHandler → Bool
unfolding is_numeric_loop
is_numeric h = is_numeric_loop h.mhandler

module _ (d : Double) where
  open d use {Num, convto_num}

  pub get_sma : VectorHandler → Num
  unfolding sum_loop
  get_sma h = d.div (sum_loop d d.zero h.mhandler) (d.of_count (length h.mhandler))

  pub get_low : VectorHandler → Outcome Num
  unfolding low_loop
  get_low h = elim h.mhandler [
    | [] ↦ fault empty_front
    | x ∷ l ↦ ret (low_loop d (convto_num x) (x ∷ l))
  ]

  pub get_high : VectorHandler → Num
  unfolding high_loop
  get_high h = high_loop d d.zero h.mhandler

  pub sum : VectorHandler → Num
  unfolding sum_loop
  sum h = sum_loop d d.zero h.mhandler
