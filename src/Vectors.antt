-- ===== src/Vectors.antt =====
-- src/brldb/vectors.cpp: the vector commands, `Run` of each query on the store. The text of a double is a
-- parameter. `vkeys_query` needs an iterator and is not here.
use beryldb.Prelude.{none, some, Str, is_empty, ltb, if◌then◌else◌}
use beryldb.Machine.{Outcome, ret, ◌>>=◌}
use beryldb.Convert.{conv_numeric, convto_num}
use beryldb.Handler.Types.{Double}
use beryldb.VectorHandler
use beryldb.VectorHandler.{VectorHandler}
use beryldb.Rocks.{Rocks}
use beryldb.Query.Types.{DblCode, Query, World}
use beryldb.Query.{get, write, delete, access_set, set_ok, or_empty, store_of}
use beryldb.Query.Prepare.{Run}
use beryldb.Query.Replies.{
  is_msg_ok, is_msg_not_found, one_or_zero, with_value, save, paged, flagged,
}
use beryldb.Query.Paging.{page_loop, start}

module _ (r : Rocks) where
  -- if (handler->Count() > 0) the vector is saved, else the key is deleted.
  pub save_or_delete : Query → World r → VectorHandler → Outcome (Query × World r)
  unfolding save
  save_or_delete q w h =
      if ltb 0 (VectorHandler.count h).1
      then save r q w (VectorHandler.as_string h)
      else ret (set_ok q, delete r q w q.dest)

  -- The same where SetOK() follows in any case.
  pub save_or_delete_ok : Query → World r → VectorHandler → Outcome (Query × World r)
  save_or_delete_ok q w h =
      let (w1, done) = write r q w q.dest (VectorHandler.as_string h) in
      if ltb 0 (VectorHandler.count h).1
      then ret (set_ok (if done then q else access_set DblCode.unable_write q), w1)
      else ret (set_ok q, delete r q w q.dest)

  pub vfind : Run r
  vfind q w = elim (r.get (store_of r q.database w) q.dest) [
    | none ↦ ret (access_set DblCode.not_found q, w)
    | some v ↦
        let found = (VectorHandler.find (VectorHandler.create v) q.value).1 in
        let p = page_loop q.offset q.limit found start in paged r q w p p.aux
  ]

  pub vsort : Run r
  unfolding save
  vsort q w =
      with_value r q w
        λ v. save r q w (VectorHandler.as_string (VectorHandler.sort (VectorHandler.create v)))

  pub vresize : Run r
  unfolding save_or_delete
  vresize q w =
      with_value r q w
        λ v. save_or_delete q w (VectorHandler.resize (VectorHandler.create v) (convto_num q.value))

  -- The end of `vpush_query::Run`, with the vector that is loaded or new.
  pub added : Query → World r → VectorHandler → Outcome (Query × World r)
  unfolding save
  added q w h =
      if is_msg_ok (VectorHandler.get_last h)
      then save r q w (VectorHandler.as_string h)
      else ret (access_set DblCode.unable_write q, w)

  pub vpush : Run r
  unfolding added
  vpush q w =
      if is_empty q.value
      then ret (access_set DblCode.miss_args q, w)
      else elim (get r q w q.dest) [
        | none ↦ added q w (VectorHandler.add VectorHandler.new q.value)
        | some v ↦ added q w (VectorHandler.add (VectorHandler.create v) q.value)
      ]

  pub vget : Run r
  vget q w = with_value r q w λ v.
      let p = flagged q.flags q (VectorHandler.get_list (VectorHandler.create v)) in
      paged r q w p p.total

  pub vcount : Run r
  vcount q w =
      with_value r q w λ v.
        ret (set_ok (record q { counter = (VectorHandler.count (VectorHandler.create v)).1 }), w)

  abbrev pub positioned : Query → World r → VectorHandler × Str → Outcome (Query × World r)
  positioned q w (h, reply) =
      if is_msg_not_found (VectorHandler.get_last h)
      then ret (access_set DblCode.not_found q, w)
      else ret (set_ok (record q { response = reply }), w)

  -- A missing key reaches `Index` of an empty vector.
  pub vpos : Run r
  vpos q w = do
    found ←
        VectorHandler.index (VectorHandler.create (or_empty (get r q w q.dest)))
          (convto_num q.value)
    positioned q w found

  pub vexist : Run r
  vexist q w = with_value r q w λ v. ret (
    set_ok (record q {
      response = one_or_zero (VectorHandler.exist (VectorHandler.create v) q.value);
    }),
    w,
  )

  -- A missing key is an empty vector, which is deleted.
  pub vpop_front : Run r
  vpop_front q w =
      let h = VectorHandler.pop_front (VectorHandler.create (or_empty (get r q w q.dest))) in
      let (w1, done) = write r q w q.dest (VectorHandler.as_string h) in
      if ltb 0 (VectorHandler.count h).1
      then ret (if done then set_ok q else access_set DblCode.unable_write q, w1)
      else ret (set_ok q, delete r q w q.dest)

  pub vpop_back : Run r
  unfolding save_or_delete
  vpop_back q w =
      save_or_delete q w
        (VectorHandler.pop_back (VectorHandler.create (or_empty (get r q w q.dest))))

  pub vpushnx : Run r
  unfolding save
  vpushnx q w =
      let h = VectorHandler.create (or_empty (get r q w q.dest)) in
      if VectorHandler.exist h q.value
      then ret (access_set DblCode.entry_exists q, w)
      else save r q w (VectorHandler.as_string (VectorHandler.add h q.value))

  pub vdel : Run r
  unfolding save_or_delete_ok
  vdel q w =
      let h = VectorHandler.create (or_empty (get r q w q.dest)) in
      if VectorHandler.exist h q.value
      then VectorHandler.remove h q.value >>= save_or_delete_ok q w
      else ret (access_set DblCode.not_found q, w)

  pub vreverse : Run r
  unfolding save
  vreverse q w =
      with_value r q w
        λ v. save r q w (VectorHandler.as_string (VectorHandler.reverse (VectorHandler.create v)))

  pub vrepeats : Run r
  vrepeats q w = with_value r q w λ v. ret (
    set_ok (record q {
      response = conv_numeric (VectorHandler.repeats (VectorHandler.create v) q.value).1;
    }),
    w,
  )

  abbrev pub replied : Query → World r → VectorHandler × Str → Outcome (Query × World r)
  replied q w (h, reply) =
      let q1 : Query = record q { response = reply } in
      if is_msg_not_found (VectorHandler.get_last h)
      then ret (access_set DblCode.not_found q1, w)
      else ret (set_ok q1, w)

  pub vback : Run r
  vback q w = with_value r q w λ v. replied q w (VectorHandler.back (VectorHandler.create v))

  pub vfront : Run r
  vfront q w = with_value r q w λ v. replied q w (VectorHandler.front (VectorHandler.create v))

  module _ (d : Double) (show : d.Num → Str) where
    pub vavg : Run r
    vavg q w = with_value r q w λ v.
        let h = VectorHandler.create v in
        if VectorHandler.is_numeric h
        then ret (set_ok (record q { response = show (VectorHandler.get_sma d h) }), w)
        else ret (access_set DblCode.invalid_range q, w)

    pub vhigh : Run r
    vhigh q w = with_value r q w λ v.
        let h = VectorHandler.create v in
        if VectorHandler.is_numeric h
        then ret (set_ok (record q { response = show (VectorHandler.get_high d h) }), w)
        else ret (access_set DblCode.invalid_range q, w)

    pub vlow : Run r
    vlow q w = with_value r q w λ v.
        let h = VectorHandler.create v in
        if VectorHandler.is_numeric h
        then (VectorHandler.get_low d h >>= λ low.
            ret (set_ok (record q { response = show low }), w))
        else ret (access_set DblCode.invalid_range q, w)

    pub vsum : Run r
    vsum q w = with_value r q w λ v.
        let h = VectorHandler.create v in
        if VectorHandler.is_numeric h
        then ret (set_ok (record q { response = show (VectorHandler.sum d h) }), w)
        else ret (access_set DblCode.invalid_range q, w)
