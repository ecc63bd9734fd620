-- ===== src/Lists/Resized.antt =====
-- LRESIZE, LPUSHNX and LFPOP on the list of their key.
use beryldb.Prelude.{
  ◌+◌, ◌<◌, ◌≤◌, ◌≡◌, refl, sym, ap, ◌∙◌, false, none, some, List, [], ◌∷◌, ◌++◌, Str, IsBytes,
  IsNonempty, str_eq, length, take, arith, ◌==◌, if◌then◌else◌, Bool-cases, inl, inr,
}
use beryldb.Machine.{ret, fault, dangling, u32_mod, ◌>>=◌}
use beryldb.Convert.{convto_num}
use beryldb.Convert.Laws.{convto_num-lt}
use beryldb.Stl.{mem}
use beryldb.ListHandler
use beryldb.ListHandler.{ListHandler}
use beryldb.ListHandler.Persist.{IsValid, create-IsValid, length-create-le}
use beryldb.ListHandler.Resize.{create-resize, count-resize}
use beryldb.ListHandler.Invariant.{step, step-IsValid, adds}
use beryldb.Rocks.{Rocks, IsStore}
use beryldb.Query.Types.{Query, World}
use beryldb.Query.{get, or_empty}
use beryldb.Lists.{save_or_delete, lresize, lpushnx, lrfront, popped_value}
use beryldb.Lists.Spec.{resize, push_new, rfront, run, after, list_at, lists_after, Writes}
use beryldb.Lists.Effects.{filled-is_empty}
use beryldb.Lists.View.{save-reload, save-view, delete-view, same}
use beryldb.Lists.Steps.{OnValue, View, expected, list_at-none, list_at-value, on, got}

length-nil : (l : List Str) → length l ≤ 0 → l ≡ []
length-nil [] h = refl
length-nil (x ∷ l) h = absurd (omega arith)

module _ (r : Rocks) (store : IsStore r) (writes : Writes r) (q : Query) (w : World r)
    (loaded : get r q w q.dest ≡ r.get (w.databases q.database) q.dest)
    (fits : (v : Str) → r.get (w.databases q.database) q.dest ≡ some v → length v + 1 < u32_mod)
    (value : IsBytes q.value × IsNonempty q.value) (at : Str) where
  resize-view :
      (h : ListHandler)
      → IsValid h
      → lists_after r q.database
          (save_or_delete r q q w (ListHandler.resize h (convto_num q.value)))
          at
        ≡ ret (
            if str_eq q.dest at
            then (if convto_num q.value == 0
                then none
                else some (take (convto_num q.value) h.mhandler))
            else list_at r (w.databases q.database) at)
  unfolding save_or_delete
  resize-view h valid =
      let n = convto_num q.value in
      let small = convto_num-lt q.value in
      elim (Bool-cases (n == 0)) [
        | inl e ↦ rw (count-resize h n small) (ground (arith, delete-view r store writes q w q at))
        | inr e ↦ rw (count-resize h n small) (
            ground (
              arith,
              save-reload r store writes q w (ListHandler.resize h n) (take n h.mhandler) at
                  (create-resize h n valid small),
            ))
      ]

  pub on_resize : OnValue r store writes q w loaded fits value at resize
  unfolding run lresize after
  on_resize v e valid room =
      on r store writes q w loaded fits value at resize
        (λ v.
          save_or_delete r q q w (ListHandler.resize (ListHandler.create v) (convto_num q.value)))
        _ v refl e (resize-view (ListHandler.create v) valid) (ground arith)

  -- LPUSHNX on the handler of the text that is loaded, or of the empty text.
  pushnx-view :
      (h : ListHandler)
      → h ≡ ListHandler.create (or_empty (get r q w q.dest))
      → IsValid h
      → length h.mhandler + 1 < u32_mod
      → mem q.value h.mhandler ≡ false
      → lists_after r q.database (run r push_new q w) at
        ≡ ret (
            if str_eq q.dest at
            then some (h.mhandler ++ q.value ∷ [])
            else list_at r (w.databases q.database) at)
  unfolding run lpushnx ListHandler.exist step ListHandler.add
  pushnx-view h e valid room miss = rw (sym e) (
      rw miss (
        save-view r store writes q w (ListHandler.add h q.value) at
          (step-IsValid h (adds q.value) valid (value.0, room))
        ∙ rw (filled-is_empty q.value value.1) refl))

  pub on_pushnx : OnValue r store writes q w loaded fits value at push_new
  unfolding after run lpushnx ListHandler.exist lists_after
  on_pushnx v e valid room =
      let h = ListHandler.create v in
      let there : ListHandler.create v ≡ ListHandler.create (or_empty (get r q w q.dest)) =
        ap (λ o. ListHandler.create (or_empty o)) (sym (loaded ∙ e)) in
      elim (Bool-cases (mem q.value h.mhandler)) [
        | inl hit ↦
            expected r store writes q w loaded fits value at push_new (run r push_new q w)
              (list_at r (w.databases q.database) q.dest)
              (rw (sym there) (rw hit (ap ret (same r store writes q w at))))
              (rw (list_at-value r store writes q w loaded fits value at v e) (rw hit refl))
        | inr miss ↦
            expected r store writes q w loaded fits value at push_new (run r push_new q w)
              (some (h.mhandler ++ q.value ∷ [])) (pushnx-view h there valid room miss)
              (rw (list_at-value r store writes q w loaded fits value at v e) (rw miss refl))
      ]

  pub on_pushnx_none :
      r.get (w.databases q.database) q.dest ≡ none
      → View r store writes q w loaded fits value at push_new
  unfolding after mem
  on_pushnx_none e =
      let h = ListHandler.create [] in
      let there : h ≡ ListHandler.create (or_empty (get r q w q.dest)) =
        ap (λ o. ListHandler.create (or_empty o)) (sym (loaded ∙ e)) in
      let nil = length-nil h.mhandler (length-create-le []) in
      expected r store writes q w loaded fits value at push_new (run r push_new q w)
        (some (h.mhandler ++ q.value ∷ []))
        (pushnx-view h there (create-IsValid [] (omega arith)) (omega (arith, length-create-le []))
          (ap (mem q.value) nil))
        (rw (list_at-none r store writes q w loaded fits value at e) (rw nil refl))

  -- LFPOP on an empty list leaves it, and else reads what it destroyed.
  pub on_rfront :
      (v : Str)
      → r.get (w.databases q.database) q.dest ≡ some v
      → (ListHandler.create v).mhandler ≡ []
      → View r store writes q w loaded fits value at rfront
  unfolding run lrfront after ListHandler.fpop popped_value lists_after ListHandler.get_last
  on_rfront v e nil =
      on r store writes q w loaded fits value at rfront
        (λ v. ListHandler.fpop (ListHandler.create v) >>= popped_value r q w) _ v refl e
        (rw nil (ap ret (same r store writes q w at)))
        (list_at-value r store writes q w loaded fits value at v e)

  pub rfront-dangling :
      (v x : Str) (l : List Str)
      → r.get (w.databases q.database) q.dest ≡ some v
      → (ListHandler.create v).mhandler ≡ x ∷ l
      → lists_after r q.database (run r rfront q w) at ≡ fault dangling
  unfolding run lrfront ListHandler.fpop lists_after
  rfront-dangling v x l e filled =
      ap (λ m. lists_after r q.database m at)
        (got r store writes q w loaded fits value at v e
          (λ v. ListHandler.fpop (ListHandler.create v) >>= popped_value r q w))
      ∙ rw filled refl
