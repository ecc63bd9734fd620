-- ===== src/Lists/View.antt =====
-- The lists of a store after a list is saved or its key deleted.
use beryldb.Prelude.{
  ◌≡◌, refl, ap, ◌∙◌, Bool, true, false, Option, none, some, List, Str, str_eq, arith,
  if◌then◌else◌, str_eq_iff, List-cases, inl, inr,
}
use mathlib.Core.Option
use beryldb.Machine.{ret}
use beryldb.ListHandler
use beryldb.ListHandler.{ListHandler}
use beryldb.ListHandler.Persist.{IsValid, create-as_string}
use beryldb.Rocks.{Rocks, IsStore}
use beryldb.Query.Types.{Query, World}
use beryldb.Query.{store_of, set_store, put_result, write, delete}
use beryldb.Query.Deletes.{get-delete}
use beryldb.Lists.{save_or_delete}
use beryldb.Query.Replies.{save}
use beryldb.Lists.Spec.{kept, list_at, lists_after, Writes}

module _ (r : Rocks) (store : IsStore r) (writes : Writes r) (q : Query) (w : World r) where
  abbrev pub here : r.State
  here = w.databases q.database

  pub set_store-same : (s : r.State) → (set_store r q.database s w).databases q.database ≡ s
  unfolding set_store
  set_store-same s = ground arith

  pub map-if :
      (b : Bool) (v : Str) (o : Option Str)
      → Option.map (λ v. (ListHandler.create v).mhandler) (if b then some v else o) ≡ (
          if b
          then some (ListHandler.create v).mhandler
          else Option.map (λ v. (ListHandler.create v).mhandler) o)
  map-if true v o = refl
  map-if false v o = refl

  -- A handler that is saved and loads to the list.
  pub save-reload :
      (h : ListHandler) (l : List Str) (at : Str)
      → (ListHandler.create (ListHandler.as_string h)).mhandler ≡ l
      → lists_after r q.database (save r q w (ListHandler.as_string h)) at
        ≡ ret (if str_eq q.dest at then some l else list_at r here at)
  unfolding save write put_result store_of lists_after list_at
  save-reload h l at loads =
      let (s', e) = writes.0 here q.dest (ListHandler.as_string h) in
      rw (e, set_store-same s', store.get-put here s' q.dest (ListHandler.as_string h) at e)
        (ap ret (
          map-if (str_eq q.dest at) (ListHandler.as_string h) (r.get here at)
          ∙ ap (λ l. if str_eq q.dest at then some l else list_at r here at) loads))

  pub save-view :
      (h : ListHandler) (at : Str)
      → IsValid h
      → lists_after r q.database (save r q w (ListHandler.as_string h)) at
        ≡ ret (if str_eq q.dest at then some h.mhandler else list_at r here at)
  save-view h at valid = save-reload h h.mhandler at (create-as_string h valid)

  pub delete-view :
      (q1 : Query) (at : Str)
      → lists_after r q.database (ret (q1, delete r q w q.dest)) at
        ≡ ret (if str_eq q.dest at then none else list_at r here at)
  unfolding lists_after list_at
  delete-view q1 at = rw (get-delete r q w q.dest store writes.1 at) (ground arith)

  pub save_or_delete-view :
      (q1 : Query) (h : ListHandler) (at : Str)
      → IsValid h
      → lists_after r q.database (save_or_delete r q q1 w h) at
        ≡ ret (if str_eq q.dest at then kept h.mhandler else list_at r here at)
  unfolding save_or_delete kept ListHandler.count
  save_or_delete-view q1 h at valid = elim (List-cases h.mhandler) [
    | inl e ↦ ground (arith, delete-view q1 at)
    | inr (x, l, e) ↦ ground (arith, valid.fits, save-view h at valid)
  ]

  pub same :
      (at : Str)
      → list_at r here at ≡ (if str_eq q.dest at then list_at r here q.dest else list_at r here at)
  same at = ground (arith, str_eq_iff q.dest at)
