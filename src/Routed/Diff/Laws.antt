-- ===== src/Routed/Diff/Laws.antt =====
-- What the comparisons of src/brldb/diff.cpp give.
use beryldb.Prelude.{
  ◌≡◌, refl, str_cmp, ap, ◌∙◌, true, false, not, ◌&&◌, Option, none, some, List, [], ◌∷◌, ◌++◌, Str,
  str_eq, str_eq_iff, map, arith, Bool-cases, inl, inr,
}
use beryldb.Stl.{mem}
use beryldb.Stl.Ordered.{Pairs}
use beryldb.ListHandler
use beryldb.MapHandler
use beryldb.Machine.{Outcome, ret, incr32}
use beryldb.Machine.ℤ.{negsuc}
use beryldb.Rocks.{Rocks}
use beryldb.Query.Types.{DblCode, Query, World, Page, int_key, int_map, int_mmap, int_geo, int_list}
use beryldb.Query.{dest_of, get, access_set, set_ok, or_empty, store_of}
use beryldb.Query.Paging.{page_loop, start}
use beryldb.Query.Paging.Laws.{pages_data, emitted, emitted-all}
use beryldb.Routed.Diff.{compare_list, with_other, diff_pages, diff_lists, diff}

-- The elements of the first list that are not in the second.
mem-compare_list :
    (x : Str) (list list2 : List Str)
    → mem x (compare_list list list2) ≡ (mem x list && not (mem x list2))
unfolding compare_list mem
mem-compare_list x [] list2 = refl
mem-compare_list x (item ∷ list) list2 =
    let same = λ (e : str_eq item x ≡ true). ap (λ y. mem y list2) ((str_eq_iff item x).0 e) in
    elim (Bool-cases (str_eq item x)) [
      | inl e ↦ ground (arith, mem-compare_list x list list2, same e)
      | inr e ↦ ground (arith, mem-compare_list x list list2)
    ]

abbrev pub keys_of : Pairs → List Str
keys_of m = map (λ p. p.0) m

module _ (r : Rocks) where
  -- The query is done, and the pages that it attached and what it holds give the items one after the other.
  pub record Lists (q : Query) (w : World r) (run : Outcome (Query × World r)) (items : List Str)
      : Type 0 where
    pub query : Query
    pub world : World r
    pub pages : List Page
    pub returns : run ≡ ret (query, world)
    pub finished : query.finished ≡ true
    pub attached : world.attached ≡ w.attached ++ pages
    pub listed : pages_data pages ++ query.vec_data ≡ items

  diff_pages-Lists :
      (q : Query) (w : World r) (items : List Str)
      → q.limit ≡ negsuc 0
      → Lists q w (diff_pages r q w items) items
  unfolding diff_pages set_ok emitted
  diff_pages-Lists q w items all =
      let p = page_loop q.offset q.limit items start in
      record {
        query = set_ok (record q {
          subresult = incr32 p.tracker;
          partial = false;
          counter = p.aux;
          vec_data = p.result;
        });
        world = record w { attached = w.attached ++ p.pages };
        pages = p.pages;
        returns = refl;
        finished = refl;
        attached = refl;
        listed =
            ap (λ limit. emitted (page_loop q.offset limit items start)) all
            ∙ emitted-all q.offset items;
      }

  found :
      (q : Query) (w : World r) (v : Str) (k : Str → Outcome (Query × World r)) (items : List Str)
      → r.get (w.databases q.database) (dest_of q.value q.select_query q.identified) ≡ some v
      → Lists q w (k v) items
      → Lists q w (with_other r q w k) items
  unfolding with_other store_of
  found q w v k items e l =
      let there : with_other r q w k ≡ k v =
        ap
          (λ (o : Option Str). elim o [
            | none ↦ ret (access_set DblCode.not_found q, w)
            | some v ↦ k v
          ])
          e in
      record {
        query = l.query;
        world = l.world;
        pages = l.pages;
        returns = there ∙ l.returns;
        finished = l.finished;
        attached = l.attached;
        listed = l.listed;
      }

  diff-list : (q : Query) (w : World r) → q.identified ≡ int_list → diff r q w ≡ diff_lists r q w
  unfolding diff str_eq str_cmp
  diff-list q w e =
      rw
        (
          ap (λ t. str_eq t int_key) e,
          ap (λ t. str_eq t int_map) e,
          ap (λ t. str_eq t int_mmap) e,
          ap (λ t. str_eq t int_geo) e,
          ap (λ t. str_eq t int_list) e,
        )
        refl

  same_run :
      (q : Query) (w : World r) (m n : Outcome (Query × World r)) (items : List Str)
      → m ≡ n
      → Lists q w n items
      → Lists q w m items
  same_run q w m n items e l = record {
    query = l.query;
    world = l.world;
    pages = l.pages;
    returns = e ∙ l.returns;
    finished = l.finished;
    attached = l.attached;
    listed = l.listed;
  }

  -- DIFF without a limit of a key with a list and another that has one: it finishes, and its pages and what it holds
  -- list the elements of the other list that the list of the key has not, and no others.
  pub diff-lists :
      (q : Query) (w : World r) (v : Str)
      → q.identified ≡ int_list
      → q.limit ≡ negsuc 0
      → r.get (w.databases q.database) (dest_of q.value q.select_query q.identified) ≡ some v
      → (items : List Str) × Lists q w (diff r q w) items
        × ((x : Str)
            → mem x items ≡ (
                mem x (ListHandler.get_list (ListHandler.create v))
                && not (
                    mem x
                      (ListHandler.get_list (ListHandler.create (or_empty (get r q w q.dest)))))))
  unfolding diff_lists
  diff-lists q w v type all there =
      let list1 = ListHandler.get_list (ListHandler.create (or_empty (get r q w q.dest))) in
      let list2 = ListHandler.get_list (ListHandler.create v) in
      (
        compare_list list2 list1,
        same_run q w (diff r q w) (diff_lists r q w) _ (diff-list q w type)
            (found q w v _ _ there (diff_pages-Lists q w (compare_list list2 list1) all)),
        λ x. mem-compare_list x list2 list1,
      )
