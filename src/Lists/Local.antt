-- ===== src/Lists/Local.antt =====
-- The list commands change the place of their key only.
use beryldb.Prelude.{
  ◌≡◌, refl, sym, ap, ◌∙◌, Bool, true, false, Option, none, some, Str, str_eq, is_empty, ltb, arith,
  Option-cases, List-cases, inl, inr, if◌then◌else◌,
}
use beryldb.Machine.{Outcome, Fault, ret, fault, dangling, ◌>>=◌}
use beryldb.Convert.{convto_num}
use beryldb.ListHandler
use beryldb.ListHandler.{ListHandler}
use beryldb.Rocks.{Rocks, IsStore}
use beryldb.Query.Types.{Query, World, DblCode}
use beryldb.Query.{
  get, write, delete, put_result, store_of, set_store, access_set, set_ok, or_empty,
}
use beryldb.Query.Deletes.{delete-none, delete-some}
use beryldb.Query.Registered.{IsLocal}
use beryldb.Lists.{
  save_or_delete, lpush, lpush_new, lpush_value, lpushnx, lreverse, lsort, lresize, lpop_front,
  lpop_back, lpopall, ldel, ldel_value, lrop, lrfront, popped_value,
}
use beryldb.Query.Replies.{save, with_value, is_msg_ok, is_msg_not_found}
use beryldb.Lists.Spec.{
  Command, push, push_new, reverse_list, sort_list, resize, pop_front, pop_last, pop_all, del, rop,
  rfront, run,
}

module _ (r : Rocks) (store : IsStore r) (q : Query) (w : World r) where
  -- What a result changes of the database of the query.
  Keeps : Outcome (Query × World r) → Type 0
  Keeps m =
      (q' : Query) (w' : World r)
      → m ≡ ret (q', w')
      → (at : Str) → str_eq q.dest at ≡ false
      → r.get (w'.databases q.database) at ≡ r.get (w.databases q.database) at

  world_of : Outcome (Query × World r) → World r
  world_of (ret (q', w')) = w'
  world_of (fault e) = w

  Keeps-ret :
      (q1 : Query) (w1 : World r)
      → ((at : Str)
          → str_eq q.dest at ≡ false
          → r.get (w1.databases q.database) at ≡ r.get (w.databases q.database) at)
      → Keeps (ret (q1, w1))
  unfolding Keeps world_of
  Keeps-ret q1 w1 k q' w' e at there =
      sym (ap (λ (m : Outcome (Query × World r)). r.get ((world_of m).databases q.database) at) e)
      ∙ k at there

  Keeps-same : (q1 : Query) → Keeps (ret (q1, w))
  Keeps-same q1 = Keeps-ret q1 w (λ at there. refl)

  Keeps-write :
      (q1 : Bool → Query) (v : Str)
      → Keeps (let (w1, done) = write r q w q.dest v in ret (q1 done, w1))
  unfolding write store_of put_result set_store
  Keeps-write q1 v = elim (Option-cases (r.put (w.databases q.database) q.dest v)) [
    | inl full ↦ rw full (Keeps-same (q1 false))
    | inr (s, e) ↦ rw e (
        Keeps-ret (q1 true) _
          (λ at there. ground (arith, store.get-put (w.databases q.database) s q.dest v at e)))
  ]

  Keeps-delete : (q1 : Query) → Keeps (ret (q1, delete r q w q.dest))
  unfolding set_store
  Keeps-delete q1 = elim (Option-cases (r.delete (w.databases q.database) q.dest)) [
    | inl fails ↦ rw (delete-none r q w q.dest fails) (Keeps-same q1)
    | inr (s, e) ↦ rw (delete-some r q w q.dest s e) (
        Keeps-ret q1 _
          (λ at there. ground (arith, store.get-delete (w.databases q.database) s q.dest at e)))
  ]

  Keeps-save : (v : Str) → Keeps (save r q w v)
  unfolding save
  Keeps-save v =
      Keeps-write (λ done. if done then set_ok q else access_set DblCode.unable_write q) v

  Keeps-if :
      (b : Bool) (m n : Outcome (Query × World r)) → Keeps m → Keeps n → Keeps (if b then m else n)
  Keeps-if true m n hm hn = hm
  Keeps-if false m n hm hn = hn

  Keeps-save_or_delete : (q1 : Query) (h : ListHandler) → Keeps (save_or_delete r q q1 w h)
  unfolding save_or_delete
  Keeps-save_or_delete q1 h =
      Keeps-if (ltb 0 (ListHandler.count h).1) _ _ (Keeps-save (ListHandler.as_string h))
        (Keeps-delete q1)

  Keeps-with_value :
      (k : Str → Outcome (Query × World r)) → ((v : Str) → Keeps (k v)) → Keeps (with_value r q w k)
  Keeps-with_value k h = by_value (get r q w q.dest)
    where
      by_value :
          (o : Option Str)
          → Keeps (elim o [ none ↦ ret (access_set DblCode.not_found q, w) | some v ↦ k v ])
      by_value none = Keeps-same (access_set DblCode.not_found q)
      by_value (some v) = h v

  Keeps-push : Keeps (lpush r q w)
  unfolding lpush lpush_new lpush_value
  Keeps-push =
      Keeps-if (is_empty q.value) _ _ (Keeps-same (access_set DblCode.miss_args q))
        (by_value (get r q w q.dest))
    where
      by_value :
          (o : Option Str)
          → Keeps (elim o [ none ↦ lpush_new r q w | some v ↦ lpush_value r q w v ])
      by_value none =
          Keeps-if (is_msg_ok (ListHandler.get_last (ListHandler.add ListHandler.new q.value))) _ _
            (Keeps-write (λ done. set_ok q)
              (ListHandler.as_string (ListHandler.add ListHandler.new q.value)))
            (Keeps-same (access_set DblCode.unable_write q))
      by_value (some v) =
          Keeps-if
            (is_msg_ok (ListHandler.get_last (ListHandler.add (ListHandler.create v) q.value))) _ _
            (Keeps-save (ListHandler.as_string (ListHandler.add (ListHandler.create v) q.value)))
            (Keeps-same (access_set DblCode.unable_write q))

  Keeps-del : Keeps (ldel r q w)
  unfolding ldel ldel_value
  Keeps-del = Keeps-with_value (ldel_value r q w) λ v.
      Keeps-if (ListHandler.exist (ListHandler.create v) q.value) _ _
        (Keeps-save_or_delete (set_ok q) (ListHandler.remove (ListHandler.create v) q.value))
        (Keeps-same (access_set DblCode.not_found q))

Keeps-popped :
    (r : Rocks) (store : IsStore r) (q : Query) (w : World r) (p : ListHandler × Str)
    → Keeps r store q w (popped_value r q w p)
unfolding popped_value Keeps
Keeps-popped r store q w (h, reply) =
    let q1 : Query = record q { response = reply } in
    Keeps-if r store q w (is_msg_not_found (ListHandler.get_last h)) _ _
      (Keeps-same r store q w (access_set DblCode.not_found q1))
      (Keeps-save_or_delete r store q1 w (set_ok q1) h)

Keeps-fault :
    (r : Rocks) (store : IsStore r) (q : Query) (w : World r) (e : Fault)
    → Keeps r store q w (fault e)
unfolding Keeps
Keeps-fault r store q w e q' w' same = absurd (cc same)

Keeps-fpop :
    (r : Rocks) (store : IsStore r) (q : Query) (w : World r) (h : ListHandler)
    → Keeps r store q w (ListHandler.fpop h >>= popped_value r q w)
unfolding ListHandler.fpop
Keeps-fpop r store q w h = elim (List-cases h.mhandler) [
  | inl e ↦ rw e (Keeps-popped r store q w _)
  | inr (x, l, e) ↦ rw e (Keeps-fault r store q w dangling)
]

Keeps-pushnx :
    (r : Rocks) (store : IsStore r) (q : Query) (w : World r) → Keeps r store q w (lpushnx r q w)
unfolding lpushnx
Keeps-pushnx r store q w =
    let h = ListHandler.create (or_empty (get r q w q.dest)) in
    Keeps-if r store q w (ListHandler.exist h q.value) _ _
      (Keeps-same r store q w (access_set DblCode.entry_exists q))
      (Keeps-save r store q w (ListHandler.as_string (ListHandler.add h q.value)))

-- Each command on lists that writes or deletes changes the place of its key at most.
pub run-IsLocal : (r : Rocks) → IsStore r → (c : Command) → IsLocal r (run r c)
unfolding run IsLocal Keeps lreverse lsort lpop_front lpop_back lpopall lrop lresize lrfront
run-IsLocal r store push q q' w w' = Keeps-push r store q w q' w'
run-IsLocal r store push_new q q' w w' = Keeps-pushnx r store q w q' w'
run-IsLocal r store reverse_list q q' w w' =
    Keeps-with_value r store q w
      (λ v. save r q w (ListHandler.as_string (ListHandler.reverse (ListHandler.create v))))
      (λ v.
        Keeps-save r store q w (ListHandler.as_string (ListHandler.reverse (ListHandler.create v))))
      q' w'
run-IsLocal r store sort_list q q' w w' =
    Keeps-with_value r store q w
      (λ v. save r q w (ListHandler.as_string (ListHandler.reverse (ListHandler.create v))))
      (λ v.
        Keeps-save r store q w (ListHandler.as_string (ListHandler.reverse (ListHandler.create v))))
      q' w'
run-IsLocal r store resize q q' w w' =
    Keeps-with_value r store q w
      (λ v. save_or_delete r q q w (ListHandler.resize (ListHandler.create v) (convto_num q.value)))
      (λ v.
        Keeps-save_or_delete r store q w q
          (ListHandler.resize (ListHandler.create v) (convto_num q.value)))
      q' w'
run-IsLocal r store pop_front q q' w w' =
    Keeps-with_value r store q w
      (λ v. save_or_delete r q q w (ListHandler.pop_front (ListHandler.create v)))
      (λ v. Keeps-save_or_delete r store q w q (ListHandler.pop_front (ListHandler.create v))) q' w'
run-IsLocal r store pop_last q q' w w' =
    Keeps-with_value r store q w
      (λ v. save_or_delete r q q w (ListHandler.pop_back (ListHandler.create v)))
      (λ v. Keeps-save_or_delete r store q w q (ListHandler.pop_back (ListHandler.create v))) q' w'
run-IsLocal r store pop_all q q' w w' =
    Keeps-with_value r store q w
      (λ v. save_or_delete r q (set_ok q) w (ListHandler.pop_all (ListHandler.create v) q.value))
      (λ v.
        Keeps-save_or_delete r store q w (set_ok q)
          (ListHandler.pop_all (ListHandler.create v) q.value))
      q' w'
run-IsLocal r store del q q' w w' = Keeps-del r store q w q' w'
run-IsLocal r store rop q q' w w' =
    Keeps-with_value r store q w (λ v. popped_value r q w (ListHandler.rpop (ListHandler.create v)))
      (λ v. Keeps-popped r store q w (ListHandler.rpop (ListHandler.create v))) q' w'
run-IsLocal r store rfront q q' w w' =
    Keeps-with_value r store q w
      (λ v. ListHandler.fpop (ListHandler.create v) >>= popped_value r q w)
      (λ v. Keeps-fpop r store q w (ListHandler.create v)) q' w'
