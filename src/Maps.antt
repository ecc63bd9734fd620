-- ===== src/Maps.antt =====
-- src/brldb/maps.cpp: the map commands, `Run` of each query on the store. Keys.Scan has
-- `hfind_query`, and GetAll has `hgetall_query`.
pub mod GetAll
pub mod Laws
pub mod Tests
use beryldb.Prelude.{
  ◌%◌, Bool, true, false, ◌&&◌, ◌||◌, none, some, List, [], ◌∷◌, ◌++◌, map, Str, codes, is_empty,
  length, ltb, ◌==◌, if◌then◌else◌,
}
use beryldb.Machine.{Outcome, ret, fault, ◌>>=◌, incr32, to_u32, to_int, dangling, ℤ}
use beryldb.Convert.{conv_numeric}
use beryldb.MapHandler
use beryldb.MapHandler.{MapHandler}
use beryldb.Rocks.{Rocks}
use beryldb.Query.Types.{DblCode, QueryFlags, Query, World}
use beryldb.Query.{get, write, delete, access_set, set_ok, or_empty}
use beryldb.Query.Prepare.{Run}
use beryldb.Query.Replies.{is_msg_ok, is_msg_not_found, one_or_zero, with_value, save, paged}
use beryldb.Query.Paging.{
  Paging, start, iter_limit, is_mone, int_leb, int_ltb, to_unsigned, count_item,
}

-- `result.clear()` empties the container that the loop goes through: the page keeps its items for the
-- next one as well, and the loop may only break.
unfoldable pub take_item : Str → Paging → Paging × Bool
take_item item p =
    let aux = incr32 p.aux in
    let q : Paging = record p { aux = aux; result = p.result ++ item ∷ [] } in
    if aux % iter_limit == 0
    then (
      record q {
        tracker = incr32 p.tracker;
        pages =
            p.pages
            ++ record { page_subresult = incr32 p.tracker; page_data = q.result; page_mmap = [] }
              ∷ [];
      },
      true,
    )
    else (q, false)

-- Behind an item that is taken, by whether the container is cleared and whether the loop breaks there.
abbrev pub after_take {ℓ} : {A : Type ℓ} → Bool → Bool → A → Outcome A → Outcome A
after_take cleared true p rest = ret p
after_take true false p rest = fault dangling
after_take false false p rest = rest

unfoldable pub clearing_loop : ℤ → ℤ → List Str → Paging → Outcome Paging
unfolding take_item count_item
clearing_loop offset limit [] p = ret p
clearing_loop offset limit (item ∷ l) p =
    let (taken, cleared) = take_item item p in
    let rest = clearing_loop offset limit l (count_item taken) in
    let skipped = clearing_loop offset limit l (count_item p) in
    if is_mone limit
    then after_take cleared false taken rest
    else if int_leb offset (to_int p.total) && int_ltb (to_int p.aux) limit
    then after_take cleared (taken.aux == to_unsigned limit) taken rest
    else skipped

module _ (r : Rocks) where
  pub hset : Run r
  unfolding save
  hset q w =
      if is_empty q.value || is_empty q.hesh
      then ret (access_set DblCode.miss_args q, w)
      else elim (get r q w q.dest) [
        | none ↦
            let h = MapHandler.add MapHandler.new q.hesh q.value in
            let (w1, done) = write r q w q.dest (MapHandler.as_string h) in
            if is_msg_ok h.last_msg
            then ret (if done then set_ok q else q, w1)
            else ret (access_set DblCode.unable_write q, w)
        | some v ↦
            let h = MapHandler.add (MapHandler.create v) q.hesh q.value in
            if is_msg_ok h.last_msg
            then save r q w (MapHandler.as_string h)
            else ret (access_set DblCode.unable_write q, w)
      ]

  -- The end of `hsetnx_query::Run`.
  pub hsetnx_add : Query → World r → MapHandler → Outcome (Query × World r)
  hsetnx_add q w handler =
      let h = MapHandler.add handler q.hesh q.value in
      let (w1, done) = write r q w q.dest (MapHandler.as_string h) in
      if is_msg_ok h.last_msg
      then ret (if done then set_ok q else q, w1)
      else ret (access_set DblCode.unable_write q, w)

  pub hsetnx : Run r
  unfolding hsetnx_add
  hsetnx q w = elim (get r q w q.dest) [
    | none ↦ hsetnx_add q w (MapHandler.create [])
    | some v ↦
        let (h, found) = MapHandler.exists (MapHandler.create v) q.hesh in
        if found then ret (access_set DblCode.entry_exists q, w) else hsetnx_add q w h
  ]

  pub hexists : Run r
  hexists q w =
      if is_empty q.hesh then ret (access_set DblCode.miss_args q, w) else elim (get r q w q.dest) [
        | none ↦ ret (set_ok (record q { response = codes "0" }), w)
        | some v ↦ ret (
          set_ok (record q {
            response = one_or_zero (MapHandler.exists (MapHandler.create v) q.hesh).1;
          }),
          w,
        )
      ]

  abbrev pub replied : Query → World r → MapHandler × Str → Outcome (Query × World r)
  replied q w (h, reply) =
      let q1 : Query = record q { response = reply } in
      if is_msg_ok h.last_msg then ret (set_ok q1, w) else ret (access_set DblCode.not_found q1, w)

  pub hstrlen : Run r
  hstrlen q w =
      if is_empty q.hesh
      then ret (access_set DblCode.miss_args q, w)
      else with_value r q w λ v.
        let (h, n) = MapHandler.strlen (MapHandler.create v) q.hesh in
        replied q w (h, conv_numeric n)

  pub hget : Run r
  hget q w =
      if is_empty q.hesh
      then ret (access_set DblCode.miss_args q, w)
      else with_value r q w λ v. replied q w (MapHandler.get (MapHandler.create v) q.hesh)

  -- A pair whose value is empty is found and not removed.
  pub hdel : Run r
  unfolding save
  hdel q w =
      let (h, value) = MapHandler.get (MapHandler.create (or_empty (get r q w q.dest))) q.hesh in
      let left = if is_empty value then h else MapHandler.remove h q.hesh in
      if is_empty value && is_msg_not_found h.last_msg
      then ret (access_set DblCode.not_found q, w)
      else if ltb 0 (MapHandler.count left).1
      then save r q w (MapHandler.as_string left)
      else ret (set_ok q, delete r q w q.dest)

  abbrev pub finished : Query → World r → Paging → Outcome (Query × World r)
  finished q w p = paged r q w p p.total

  pub hlist : Run r
  unfolding clearing_loop
  hlist q w =
      let keys = map (λ p. p.0) (MapHandler.create (or_empty (get r q w q.dest))).mhandler in
      elim q.flags [
        | QueryFlags.core ↦
            finished q w (record start { total = to_u32 (length keys); result = keys })
        | QueryFlags.count ↦ finished q w (record start { total = to_u32 (length keys) })
        | _ ↦ clearing_loop q.offset q.limit keys start >>= finished q w
      ]

  pub hvals : Run r
  unfolding clearing_loop
  hvals q w =
      let h = MapHandler.create (or_empty (get r q w q.dest)) in
      clearing_loop q.offset q.limit (MapHandler.get_values h).1 start >>= finished q w
