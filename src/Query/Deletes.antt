-- ===== src/Query/Deletes.antt =====
-- `QueryBase::Delete` by what the store makes of it: its status is not looked at.
use beryldb.Prelude.{
  ◌≡◌, ap, ◌∙◌, none, some, ℕ, false, Option-cases, inl, inr, Str, str_eq, ◌==◌, arith,
  if◌then◌else◌,
}
use beryldb.Rocks.{Rocks, IsStore, Deletes}
use beryldb.Query.Types.{Query, World}
use beryldb.Query.{delete, put_result, set_store, store_of}

module _ (r : Rocks) (q : Query) (w : World r) (at : Str) where
  pub delete-none : r.delete (w.databases q.database) at ≡ none → delete r q w at ≡ w
  unfolding delete put_result store_of
  delete-none e = ap (λ o. (put_result r q.database w o).0) e

  pub delete-some :
      (s : r.State)
      → r.delete (w.databases q.database) at ≡ some s
      → delete r q w at ≡ set_store r q.database s w
  unfolding delete put_result store_of
  delete-some s e = ap (λ o. (put_result r q.database w o).0) e

  -- What is looked up behind a Delete that does not fail.
  pub get-delete :
      IsStore r
      → Deletes r
      → (j : Str)
      → r.get ((delete r q w at).databases q.database) j
        ≡ (if str_eq at j then none else r.get (w.databases q.database) j)
  unfolding set_store
  get-delete store deletes j =
      let (s, e) = deletes (w.databases q.database) at in
      ap (λ (v : World r). r.get (v.databases q.database) j) (delete-some s e)
      ∙ ground (arith, store.get-delete (w.databases q.database) s at j e)

  pub delete-elsewhere :
      (d : ℕ) → (d == q.database) ≡ false → (delete r q w at).databases d ≡ w.databases d
  unfolding set_store
  delete-elsewhere d apart = elim (Option-cases (r.delete (w.databases q.database) at)) [
    | inl e ↦ ap (λ (v : World r). v.databases d) (delete-none e)
    | inr (s, e) ↦ ap (λ (v : World r). v.databases d) (delete-some s e) ∙ ground arith
  ]
