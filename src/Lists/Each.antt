-- ===== src/Lists/Each.antt =====
-- The list commands one by one, on the list of a key that has a value; LPUSH on a new key too.
use beryldb.Prelude.{
  ◌+◌, ◌<◌, ◌≡◌, refl, sym, ap, ◌∙◌, Option, none, some, [], ◌∷◌, ◌++◌, Str, IsBytes, IsNonempty,
  length, arith, Bool-cases, List-cases, inl, inr,
}
use beryldb.Machine.{Outcome, ret, u32_mod}
use beryldb.Stl.{is_nil, mem}
use beryldb.Handler.Types.{ok}
use beryldb.ListHandler
use beryldb.ListHandler.{ListHandler}
use beryldb.ListHandler.Invariant.{
  step, step-IsValid, adds, pops_all, removes, pops_front, pops_back, rpops, reverses,
}
use beryldb.Rocks.{Rocks, IsStore}
use beryldb.Query.Types.{Query, World}
use beryldb.Query.{set_ok, get}
use beryldb.Lists.{
  lpush_value, lpush_new, ldel_value, popped_value, lpush, lreverse, lsort, lpop_front, lpop_back,
  lpopall, ldel, lrop,
}
use beryldb.Query.Replies.{save}
use beryldb.Lists.Spec.{
  push, reverse_list, sort_list, pop_front, pop_last, pop_all, del, rop, run, kept, after, list_at,
  lists_after, Writes,
}
use beryldb.Lists.Effects.{
  after_pop_front, after_pop_back, after_pop_all, after_remove, after_del_none, rpop_lem,
  filled-is_empty,
}
use beryldb.Lists.View.{save-view, save_or_delete-view, same}
use beryldb.Lists.Steps.{OnValue, View, expected, list_at-none, list_at-value, on, on_call}

module _ (r : Rocks) (store : IsStore r) (writes : Writes r) (q : Query) (w : World r)
    (loaded : get r q w q.dest ≡ r.get (w.databases q.database) q.dest)
    (fits : (v : Str) → r.get (w.databases q.database) q.dest ≡ some v → length v + 1 < u32_mod)
    (value : IsBytes q.value × IsNonempty q.value) (at : Str) where
  pub on_reverse : OnValue r store writes q w loaded fits value at reverse_list
  unfolding run lreverse after step ListHandler.reverse
  on_reverse v e valid room =
      let h = ListHandler.create v in
      on r store writes q w loaded fits value at reverse_list
        (λ v. save r q w (ListHandler.as_string (ListHandler.reverse (ListHandler.create v)))) _ v
        refl e
        (save-view r store writes q w (ListHandler.reverse h) at (step-IsValid h reverses valid tt))
        refl

  pub on_sort : OnValue r store writes q w loaded fits value at sort_list
  unfolding run lsort after step ListHandler.reverse
  on_sort v e valid room =
      let h = ListHandler.create v in
      on r store writes q w loaded fits value at sort_list
        (λ v. save r q w (ListHandler.as_string (ListHandler.reverse (ListHandler.create v)))) _ v
        refl e
        (save-view r store writes q w (ListHandler.reverse h) at (step-IsValid h reverses valid tt))
        refl

  pub on_pop_front : OnValue r store writes q w loaded fits value at pop_front
  unfolding run lpop_front after step
  on_pop_front =
      on_call r store writes q w loaded fits value at pop_front pops_front q refl (λ h. tt)
        (λ h. ap kept (after_pop_front h))

  pub on_pop_last : OnValue r store writes q w loaded fits value at pop_last
  unfolding run lpop_back after step
  on_pop_last =
      on_call r store writes q w loaded fits value at pop_last pops_back q refl (λ h. tt)
        (λ h. ap kept (after_pop_back h))

  pub on_pop_all : OnValue r store writes q w loaded fits value at pop_all
  unfolding run lpopall after step
  on_pop_all =
      on_call r store writes q w loaded fits value at pop_all (pops_all q.value) (set_ok q) refl
        (λ h. tt) (λ h. ap kept (after_pop_all h q.value value.1))

  pub on_del : OnValue r store writes q w loaded fits value at del
  unfolding run ldel ldel_value step ListHandler.exist lists_after list_at
  on_del v e valid room =
      let h = ListHandler.create v in
      elim (Bool-cases (mem q.value h.mhandler)) [
        | inl hit ↦
            on r store writes q w loaded fits value at del (ldel_value r q w) _ v refl e
              (rw hit (
                save_or_delete-view r store writes q w (set_ok q) (ListHandler.remove h q.value) at
                  (step-IsValid h (removes q.value) valid tt)))
              (after_remove h q.value hit)
        | inr miss ↦
            on r store writes q w loaded fits value at del (ldel_value r q w) _ v refl e
              (rw miss (ap ret (same r store writes q w at)))
              (list_at-value r store writes q w loaded fits value at v e
                ∙ sym (after_del_none h.mhandler q.value miss))
      ]

  pub rop_k : Str → Outcome (Query × World r)
  rop_k v = popped_value r q w (ListHandler.rpop (ListHandler.create v))

  pub on_rop : OnValue r store writes q w loaded fits value at rop
  unfolding run lrop popped_value after step lists_after list_at rop_k
  on_rop v e valid room =
      let h = ListHandler.create v in
      elim (List-cases h.mhandler) [
        | inl empty ↦
            on r store writes q w loaded fits value at rop rop_k _ v refl e
              (rw ((rpop_lem h).0 ∙ ap is_nil empty) (ap ret (same r store writes q w at)))
              (list_at-value r store writes q w loaded fits value at v e ∙ rw empty refl)
        | inr (x, l, filled) ↦
            on r store writes q w loaded fits value at rop rop_k _ v refl e
              (rw ((rpop_lem h).0 ∙ ap is_nil filled) (
                save_or_delete-view r store writes (record q { response = (ListHandler.rpop h).1 })
                  w (set_ok (record q { response = (ListHandler.rpop h).1 })) (ListHandler.rpop h).0
                  at (step-IsValid h rpops valid tt)))
              (ap kept (rpop_lem h).1 ∙ rw filled refl)
      ]

  push_runs :
      (o : Option Str)
      → r.get (w.databases q.database) q.dest ≡ o
      → run r push q w ≡ elim o as (λ _. Outcome (Query × World r)) [
        | none ↦ lpush_new r q w
        | some v ↦ lpush_value r q w v
      ]
  unfolding run lpush
  push_runs o e = rw (filled-is_empty q.value value.1) (
      ap
        (λ (o : Option Str). elim o as (λ _. Outcome (Query × World r)) [
          | none ↦ lpush_new r q w
          | some v ↦ lpush_value r q w v
        ])
        (loaded ∙ e))

  pushed :
      (h : ListHandler)
      → (ListHandler.get_last (ListHandler.add h q.value) ≡ some ok)
        × ((ListHandler.add h q.value).mhandler ≡ h.mhandler ++ q.value ∷ [])
  unfolding ListHandler.add ListHandler.get_last
  pushed h = rw (filled-is_empty q.value value.1) (refl, refl)

  pub on_push : OnValue r store writes q w loaded fits value at push
  unfolding lpush_value after step
  on_push v e valid room =
      let h = ListHandler.create v in
      expected r store writes q w loaded fits value at push (run r push q w)
        (some (ListHandler.add h q.value).mhandler)
        (ap (λ m. lists_after r q.database m at) (push_runs (some v) e)
          ∙ rw (pushed h).0 (
              save-view r store writes q w (ListHandler.add h q.value) at
                (step-IsValid h (adds q.value) valid (value.0, room))))
        (ap some (pushed h).1
          ∙ sym
              (ap (after push q.value) (list_at-value r store writes q w loaded fits value at v e)))

  pub on_push_new :
      r.get (w.databases q.database) q.dest ≡ none
      → View r store writes q w loaded fits value at push
  unfolding lpush_new after step ListHandler.new lists_after save
  on_push_new e =
      let h = ListHandler.new in
      expected r store writes q w loaded fits value at push (run r push q w)
        (some (ListHandler.add h q.value).mhandler)
        (ap (λ m. lists_after r q.database m at) (push_runs none e)
          ∙ rw (pushed h).0 (
              save-view r store writes q w (ListHandler.add h q.value) at (
                step-IsValid h (adds q.value)
                  (record { filled = tt; bytes = tt; fits = omega arith }) (value.0, omega arith))))
        (ap some (pushed h).1
          ∙ sym (ap (after push q.value) (list_at-none r store writes q w loaded fits value at e)))
