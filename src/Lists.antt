-- ===== src/Lists.antt =====
-- src/brldb/lists.cpp: the list commands, `Run` of each query on the store. The text of a double is a
-- parameter. `lkeys_query` needs an iterator and is not here.
pub mod Spec
pub mod Effects
pub mod View
pub mod Local
pub mod Typed
pub mod Tests
pub mod Steps
pub mod Each
pub mod Refine
pub mod Resized
use beryldb.Prelude.{
  ℕ, ◌+◌, Bool, true, false, Option, none, some, List, [], ◌∷◌, ◌++◌, Str, codes, str_eq, is_empty,
  length, ltb, ◌==◌, if◌then◌else◌,
}
use beryldb.Machine.{Outcome, ret, fault, ◌>>=◌, incr32, to_u32}
use beryldb.Convert.{conv_numeric, convto_num}
use beryldb.Handler.Types.{HandlerMsg, not_found, ok, invalid, Double}
use beryldb.ListHandler
use beryldb.ListHandler.{ListHandler}
use beryldb.Rocks.{Rocks}
use beryldb.Query.Types.{DblCode, QueryFlags, Query, World}
use beryldb.Query.{get, write, delete, access_set, set_ok, or_empty}
use beryldb.Query.Prepare.{Run}
use beryldb.Query.Replies.{
  is_msg_ok, is_msg_not_found, one_or_zero, with_value, save, paged, flagged,
}
use beryldb.Query.Paging.{Paging, page_loop, start}

module _ (r : Rocks) where
  -- if (handler->Count() > 0) the list is saved, else the key is deleted; `deleted` is the query then.
  pub save_or_delete : Query → Query → World r → ListHandler → Outcome (Query × World r)
  unfolding save
  save_or_delete q deleted w h =
      if ltb 0 (ListHandler.count h).1
      then save r q w (ListHandler.as_string h)
      else ret (deleted, delete r q w q.dest)

  pub lpush_new : Run r
  lpush_new q w =
      let h = ListHandler.add ListHandler.new q.value in
      if is_msg_ok (ListHandler.get_last h)
      then ret (set_ok q, (write r q w q.dest (ListHandler.as_string h)).0)
      else ret (access_set DblCode.unable_write q, w)

  pub lpush_value : Query → World r → Str → Outcome (Query × World r)
  unfolding save
  lpush_value q w v =
      let h = ListHandler.add (ListHandler.create v) q.value in
      if is_msg_ok (ListHandler.get_last h)
      then save r q w (ListHandler.as_string h)
      else ret (access_set DblCode.unable_write q, w)

  pub lpush : Run r
  unfolding lpush_new lpush_value
  lpush q w =
      if is_empty q.value
      then ret (access_set DblCode.miss_args q, w)
      else elim (get r q w q.dest) [ none ↦ lpush_new q w | some v ↦ lpush_value q w v ]

  pub lpushnx : Run r
  unfolding save
  lpushnx q w =
      let h = ListHandler.create (or_empty (get r q w q.dest)) in
      if ListHandler.exist h q.value
      then ret (access_set DblCode.entry_exists q, w)
      else save r q w (ListHandler.as_string (ListHandler.add h q.value))

  pub lreverse : Run r
  unfolding save
  lreverse q w =
      with_value r q w
        λ v. save r q w (ListHandler.as_string (ListHandler.reverse (ListHandler.create v)))

  -- The list is reversed, not sorted.
  pub lsort : Run r
  unfolding save
  lsort q w =
      with_value r q w
        λ v. save r q w (ListHandler.as_string (ListHandler.reverse (ListHandler.create v)))

  abbrev pub positioned : Query → World r → ListHandler × Str → Outcome (Query × World r)
  positioned q w (h, reply) =
      if is_msg_not_found (ListHandler.get_last h)
      then ret (access_set DblCode.not_found q, w)
      else ret (set_ok (record q { response = reply }), w)

  -- A missing key reaches `Index` of an empty list.
  pub lpos : Run r
  lpos q w = do
    found ←
        ListHandler.index (ListHandler.create (or_empty (get r q w q.dest))) (convto_num q.value)
    positioned q w found

  pub lresize : Run r
  unfolding save_or_delete
  lresize q w =
      with_value r q w
        λ v. save_or_delete q q w (ListHandler.resize (ListHandler.create v) (convto_num q.value))

  pub lpop_front : Run r
  unfolding save_or_delete
  lpop_front q w =
      with_value r q w λ v. save_or_delete q q w (ListHandler.pop_front (ListHandler.create v))

  pub lpop_back : Run r
  unfolding save_or_delete
  lpop_back q w =
      with_value r q w λ v. save_or_delete q q w (ListHandler.pop_back (ListHandler.create v))

  pub lpopall : Run r
  unfolding save_or_delete
  lpopall q w =
      with_value r q w
        λ v. save_or_delete q (set_ok q) w (ListHandler.pop_all (ListHandler.create v) q.value)

  pub lcount : Run r
  lcount q w =
      with_value r q w
        λ v. ret (set_ok (record q { counter = (ListHandler.count (ListHandler.create v)).1 }), w)

  pub lexist : Run r
  lexist q w = with_value r q w λ v. ret (
    set_ok (record q { response = one_or_zero (ListHandler.exist (ListHandler.create v) q.value) }),
    w,
  )

  pub ldel_value : Query → World r → Str → Outcome (Query × World r)
  unfolding save_or_delete
  ldel_value q w v =
      let h = ListHandler.create v in
      if ListHandler.exist h q.value
      then save_or_delete q (set_ok q) w (ListHandler.remove h q.value)
      else ret (access_set DblCode.not_found q, w)

  pub ldel : Run r
  unfolding ldel_value
  ldel q w = with_value r q w (ldel_value q w)

  pub lrepeats : Run r
  lrepeats q w = with_value r q w λ v. ret (
    set_ok (record q {
      response = conv_numeric (ListHandler.repeats (ListHandler.create v) q.value).1;
    }),
    w,
  )

  abbrev pub replied : Query → World r → ListHandler × Str → Outcome (Query × World r)
  replied q w (h, reply) =
      let q1 : Query = record q { response = reply } in
      if is_msg_not_found (ListHandler.get_last h)
      then ret (access_set DblCode.not_found q1, w)
      else ret (set_ok q1, w)

  -- RPOP's reply, and what is kept of the list.
  pub popped_value : Query → World r → ListHandler × Str → Outcome (Query × World r)
  unfolding save_or_delete
  popped_value q w (h, reply) =
      let q1 : Query = record q { response = reply } in
      if is_msg_not_found (ListHandler.get_last h)
      then ret (access_set DblCode.not_found q1, w)
      else save_or_delete q1 (set_ok q1) w h

  pub lrop : Run r
  unfolding popped_value
  lrop q w = with_value r q w λ v. popped_value q w (ListHandler.rpop (ListHandler.create v))

  pub lrfront : Run r
  unfolding popped_value
  lrfront q w = with_value r q w λ v. ListHandler.fpop (ListHandler.create v) >>= popped_value q w

  pub lback : Run r
  lback q w = with_value r q w λ v. replied q w (ListHandler.back (ListHandler.create v))

  pub lfront : Run r
  lfront q w = with_value r q w λ v. replied q w (ListHandler.front (ListHandler.create v))

  pub lget : Run r
  lget q w = with_value r q w λ v.
      let p = flagged q.flags q (ListHandler.get_list (ListHandler.create v)) in
      paged r q w p p.total

  module _ (d : Double) (show : d.Num → Str) where
    pub lavg : Run r
    lavg q w = with_value r q w λ v.
        let h = ListHandler.create v in
        if ListHandler.is_numeric h
        then ret (set_ok (record q { response = show (ListHandler.get_sma d h) }), w)
        else ret (access_set DblCode.invalid_range q, w)

    pub lhigh : Run r
    lhigh q w = with_value r q w λ v.
        let h = ListHandler.create v in
        if ListHandler.is_numeric h
        then ret (set_ok (record q { response = show (ListHandler.get_high d h) }), w)
        else ret (access_set DblCode.invalid_range q, w)

    pub llow : Run r
    llow q w = with_value r q w λ v.
        let h = ListHandler.create v in
        if ListHandler.is_numeric h
        then (ListHandler.get_low d h >>= λ low. ret (set_ok (record q { response = show low }), w))
        else ret (access_set DblCode.invalid_range q, w)
