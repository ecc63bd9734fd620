-- ===== src/Maps/GetAll.antt =====
-- src/brldb/maps.cpp and src/brldb/multis.cpp: `hgetall_query` and `mgetall_query`, whose pages hold pairs.
use beryldb.Prelude.{ℕ, ◌%◌, Bool, true, false, ◌&&◌, List, [], ◌∷◌, ◌++◌, Str, ◌==◌, if◌then◌else◌}
use beryldb.Machine.{Outcome, ret, ◌>>=◌, incr32, to_int, ℤ}
use beryldb.Stl.Ordered.{Pairs, multimap_insert}
use beryldb.MapHandler
use beryldb.MultiMapHandler
use beryldb.Rocks.{Rocks}
use beryldb.Query.Types.{Query, World, Page}
use beryldb.Query.{get, set_ok, or_empty}
use beryldb.Query.Prepare.{Run}
use beryldb.Query.Paging.{iter_limit, is_mone, int_leb, int_ltb, to_unsigned}
use beryldb.Maps.{after_take}

-- The variables of the loop.
pub record PairPaging : Type 0 where
  pub total : ℕ
  pub aux : ℕ
  pub tracker : ℕ
  pub result : Pairs
  pub pages : List Page

abbrev pub pairs_start : PairPaging
pairs_start = record { total = 0; aux = 0; tracker = 0; result = []; pages = [] }

-- A pair that is taken, and whether the container is cleared there.
unfoldable pub take_pair : Str × Str → PairPaging → PairPaging × Bool
take_pair (key, value) p =
    let aux = incr32 p.aux in
    let q : PairPaging = record p { aux = aux; result = multimap_insert key value p.result } in
    let page : Page = record {
      page_subresult = incr32 p.tracker;
      page_data = [];
      page_mmap = q.result;
    } in
    if aux % iter_limit == 0
    then (record q { tracker = incr32 p.tracker; pages = p.pages ++ page ∷ [] }, true)
    else (q, false)

unfoldable pub count_pair : PairPaging → PairPaging
count_pair p = record p { total = incr32 p.total }

unfoldable pub pairs_loop : ℤ → ℤ → Pairs → PairPaging → Outcome PairPaging
unfolding take_pair count_pair
pairs_loop offset limit [] p = ret p
pairs_loop offset limit (pair ∷ l) p =
    let (taken, cleared) = take_pair pair p in
    let rest = pairs_loop offset limit l (count_pair taken) in
    let skipped = pairs_loop offset limit l (count_pair p) in
    if is_mone limit
    then after_take cleared false taken rest
    else if int_leb offset (to_int p.total) && int_ltb (to_int p.aux) limit
    then after_take cleared (taken.aux == to_unsigned limit) taken rest
    else skipped

module _ (r : Rocks) where
  -- The end of both queries.
  abbrev pub pairs_finished : Query → World r → PairPaging → Outcome (Query × World r)
  pairs_finished q w p = ret (
    set_ok (record q {
      subresult = incr32 p.tracker;
      partial = false;
      counter = p.total;
      mmap = p.result;
    }),
    record w { attached = w.attached ++ p.pages },
  )

  pub hgetall : Run r
  unfolding pairs_loop
  hgetall q w =
      let h = MapHandler.create (or_empty (get r q w q.dest)) in
      pairs_loop q.offset q.limit (MapHandler.get_all h).1 pairs_start >>= pairs_finished q w

  pub mgetall : Run r
  unfolding pairs_loop
  mgetall q w =
      let h = MultiMapHandler.create (or_empty (get r q w q.dest)) in
      pairs_loop q.offset q.limit (MultiMapHandler.get_all h).1 pairs_start >>= pairs_finished q w
