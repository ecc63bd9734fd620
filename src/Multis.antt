-- ===== src/Multis.antt =====
-- src/brldb/multis.cpp: the multimap commands, `Run` of each query on the store. Maps.GetAll has
-- `mgetall_query`.
use beryldb.Prelude.{none, some, map, length, ltb, if◌then◌else◌}
use beryldb.Machine.{Outcome, ret, ◌>>=◌, to_u32}
use beryldb.Convert.{conv_numeric}
use beryldb.MultiMapHandler
use beryldb.MultiMapHandler.{MultiMapHandler}
use beryldb.Rocks.{Rocks}
use beryldb.Query.Types.{DblCode, QueryFlags, Query, World}
use beryldb.Query.{get, delete, access_set, set_ok, or_empty, store_of}
use beryldb.Query.Prepare.{Run}
use beryldb.Query.Replies.{is_msg_ok, with_value, save, paged}
use beryldb.Query.Paging.{page_loop, start}
use beryldb.Keys.Scan.{scan}
use beryldb.Maps.{clearing_loop, finished}

module _ (r : Rocks) where
  -- A missing key is an empty multimap, which is deleted.
  pub mdel : Run r
  unfolding save
  mdel q w =
      let h =
        MultiMapHandler.remove (MultiMapHandler.create (or_empty (get r q w q.dest))) q.value in
      if ltb 0 (MultiMapHandler.count h).1
      then save r q w (MultiMapHandler.as_string h)
      else ret (set_ok q, delete r q w q.dest)

  -- The end of `mset_query::Run` and `msetnx_query::Run`: what is refused is reported by `refused`.
  pub put_pair : Query → Query → World r → MultiMapHandler → Outcome (Query × World r)
  unfolding save
  put_pair q refused w handler =
      let h = MultiMapHandler.add handler q.hesh q.value in
      if is_msg_ok h.last_msg then save r q w (MultiMapHandler.as_string h) else ret (refused, w)

  pub mset : Run r
  unfolding put_pair
  mset q w = elim (get r q w q.dest) [
    | none ↦ put_pair q q w MultiMapHandler.new
    | some v ↦ put_pair q (set_ok q) w (MultiMapHandler.create v)
  ]

  pub msetnx : Run r
  unfolding put_pair
  msetnx q w = elim (get r q w q.dest) [
    | none ↦ put_pair q q w MultiMapHandler.new
    | some v ↦
        let (h, found) = MultiMapHandler.exists (MultiMapHandler.create v) q.hesh in
        if found then ret (access_set DblCode.entry_exists q, w) else put_pair q (set_ok q) w h
  ]

  -- The type of the places is the one of the query.
  pub mkeys : Run r
  unfolding scan
  mkeys q w =
      let keys = scan q.key q.select_query q.base_request (r.entries (store_of r q.database w)) in
      let p = page_loop q.offset q.limit keys start in paged r q w p p.aux

  pub mget : Run r
  unfolding clearing_loop
  mget q w = with_value r q w λ v.
      let keys = map (λ p. p.0) (MultiMapHandler.create v).mhandler in
      elim q.flags [
        | QueryFlags.core ↦
            finished r q w (record start { total = to_u32 (length keys); result = keys })
        | QueryFlags.count ↦ finished r q w (record start { total = to_u32 (length keys) })
        | _ ↦ clearing_loop q.offset q.limit keys start >>= finished r q w
      ]

  pub mrepeats : Run r
  mrepeats q w =
      let h = MultiMapHandler.create (or_empty (get r q w q.dest)) in
      ret (set_ok (record q { response = conv_numeric (MultiMapHandler.repeats h q.value).1 }), w)

  pub mvals : Run r
  unfolding clearing_loop
  mvals q w =
      let h = MultiMapHandler.create (or_empty (get r q w q.dest)) in
      clearing_loop q.offset q.limit (MultiMapHandler.get_values h).1 start >>= finished r q w

  pub miter : Run r
  unfolding clearing_loop
  miter q w =
      let h = MultiMapHandler.create (or_empty (get r q w q.dest)) in
      clearing_loop q.offset q.limit (MultiMapHandler.get_vals h q.value).1 start >>= finished r q w
