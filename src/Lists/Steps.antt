-- ===== src/Lists/Steps.antt =====
-- The steps that the proofs on the list commands share: what is loaded, and what a command leaves.
use beryldb.Prelude.{
  ◌+◌, ◌<◌, ◌≡◌, refl, sym, ap, ◌∙◌, Option, none, some, List, Str, IsBytes, IsNonempty, str_eq,
  length, if◌then◌else◌,
}
use beryldb.Machine.{Outcome, ret, u32_mod}
use beryldb.ListHandler
use beryldb.ListHandler.{ListHandler}
use beryldb.ListHandler.Persist.{IsValid}
use beryldb.ListHandler.Invariant.{Call, Fits, step, step-IsValid}
use beryldb.Rocks.{Rocks, IsStore}
use beryldb.Query.Types.{DblCode, Query, World}
use beryldb.Query.{access_set, get}
use beryldb.Lists.{save_or_delete}
use beryldb.Query.Replies.{with_value}
use beryldb.Lists.Spec.{Command, run, kept, after, list_at, lists_after, Writes}
use beryldb.Lists.View.{save_or_delete-view, same}

module _ (r : Rocks) (store : IsStore r) (writes : Writes r) (q : Query) (w : World r)
    (loaded : get r q w q.dest ≡ r.get (w.databases q.database) q.dest)
    (fits : (v : Str) → r.get (w.databases q.database) q.dest ≡ some v → length v + 1 < u32_mod)
    (value : IsBytes q.value × IsNonempty q.value) (at : Str) where
  abbrev pub View : Command → Type 0
  View c =
      lists_after r q.database (run r c q w) at
      ≡ ret (
          if str_eq q.dest at
          then after c q.value (list_at r (w.databases q.database) q.dest)
          else list_at r (w.databases q.database) at)

  -- The command where the key has a value.
  abbrev pub OnValue : Command → Type 0
  OnValue c =
      (v : Str)
      → r.get (w.databases q.database) q.dest ≡ some v
      → IsValid (ListHandler.create v)
      → length (ListHandler.create v).mhandler + 1 < u32_mod
      → View c

  -- The list that the command leaves behind the key.
  abbrev pub Becomes : Command → Option (List Str) → Type 0
  Becomes c o = o ≡ after c q.value (list_at r (w.databases q.database) q.dest)

  pub expected :
      (c : Command) (m : Outcome (Query × World r)) (o : Option (List Str))
      → lists_after r q.database m at
        ≡ ret (if str_eq q.dest at then o else list_at r (w.databases q.database) at)
      → Becomes c o
      → lists_after r q.database m at
        ≡ ret (
            if str_eq q.dest at
            then after c q.value (list_at r (w.databases q.database) q.dest)
            else list_at r (w.databases q.database) at)
  expected c m o e b =
      e ∙ ap (λ o. ret (if str_eq q.dest at then o else list_at r (w.databases q.database) at)) b

  pub list_at-value :
      (v : Str)
      → r.get (w.databases q.database) q.dest ≡ some v
      → list_at r (w.databases q.database) q.dest ≡ some (ListHandler.create v).mhandler
  unfolding list_at
  list_at-value v e = rw e refl

  pub list_at-none :
      r.get (w.databases q.database) q.dest ≡ none
      → list_at r (w.databases q.database) q.dest ≡ none
  unfolding list_at
  list_at-none e = rw e refl

  pub untouched :
      (c : Command) (q1 : Query)
      → Becomes c (list_at r (w.databases q.database) q.dest)
      → lists_after r q.database (ret (q1, w)) at
        ≡ ret (
            if str_eq q.dest at
            then after c q.value (list_at r (w.databases q.database) q.dest)
            else list_at r (w.databases q.database) at)
  unfolding lists_after
  untouched c q1 b =
      expected c (ret (q1, w)) (list_at r (w.databases q.database) q.dest)
        (ap ret (same r store writes q w at)) b

  pub got :
      (v : Str)
      → r.get (w.databases q.database) q.dest ≡ some v
      → (k : Str → Outcome (Query × World r)) → with_value r q w k ≡ k v
  got v e k =
      ap
        (λ (o : Option Str). elim o [
          | none ↦ ret (access_set DblCode.not_found q, w)
          | some v ↦ k v
        ])
        (loaded ∙ e)

  -- A command that runs `k` on the value, where `k` leaves `o` at the key.
  pub on :
      (c : Command) (k : Str → Outcome (Query × World r)) (o : Option (List Str)) (v : Str)
      → run r c q w ≡ with_value r q w k
      → r.get (w.databases q.database) q.dest ≡ some v
      → lists_after r q.database (k v) at
        ≡ ret (if str_eq q.dest at then o else list_at r (w.databases q.database) at)
      → o ≡ after c q.value (some (ListHandler.create v).mhandler)
      → View c
  on c k o v runs e left b =
      expected c (run r c q w) o (ap (λ m. lists_after r q.database m at) (runs ∙ got v e k) ∙ left)
        (b ∙ ap (after c q.value) (sym (list_at-value v e)))

  pub got_none :
      r.get (w.databases q.database) q.dest ≡ none
      → (k : Str → Outcome (Query × World r))
      → with_value r q w k ≡ ret (access_set DblCode.not_found q, w)
  got_none e k =
      ap
        (λ (o : Option Str). elim o [
          | none ↦ ret (access_set DblCode.not_found q, w)
          | some v ↦ k v
        ])
        (loaded ∙ e)

  -- A command that makes one call on the list, and saves what is left or deletes the key.
  pub on_call :
      (c : Command) (call : Call) (q1 : Query)
      → run r c q w
        ≡ with_value r q w (λ v. save_or_delete r q q1 w (step (ListHandler.create v) call))
      → ((h : ListHandler) → Fits h call)
      → ((h : ListHandler) → kept (step h call).mhandler ≡ after c q.value (some h.mhandler))
      → OnValue c
  on_call c call q1 runs f b v e valid room =
      let h = ListHandler.create v in
      on c (λ v. save_or_delete r q q1 w (step (ListHandler.create v) call))
        (kept (step h call).mhandler) v runs e
        (save_or_delete-view r store writes q w q1 (step h call) at
          (step-IsValid h call valid (f h)))
        (b h)

  pub on_none :
      (c : Command) (k : Str → Outcome (Query × World r))
      → run r c q w ≡ with_value r q w k
      → r.get (w.databases q.database) q.dest ≡ none
      → after c q.value none ≡ none
      → View c
  unfolding lists_after list_at
  on_none c k runs e a =
      expected c (run r c q w) (list_at r (w.databases q.database) q.dest)
        (ap (λ m. lists_after r q.database m at) (runs ∙ got_none e k)
          ∙ ap ret (same r store writes q w at))
        (list_at-none e ∙ sym a ∙ ap (after c q.value) (sym (list_at-none e)))
