-- ===== src/Routed/Timers/Laws.antt =====
-- What a future leaves behind when it is executed.
use beryldb.Prelude.{
  ℕ, ◌≡◌, refl, ap, ◌∙◌, Bool, true, false, Option, none, some, ◌∷◌, ◌++◌, Str, IsBytes, str_eq,
  str_eq_iff, str_eq_refl, arith, if◌then◌else◌, Option-cases, Bool-cases, inl, inr,
}
use beryldb.Machine.{Outcome, ret, fault}
use beryldb.Codec.{to_bin}
use beryldb.Futures
use beryldb.Futures.{FutureManager}
use beryldb.Futures.Laws.{delete_lem}
use beryldb.Rocks.{Rocks, IsStore, Deletes}
use beryldb.Query.Types.{Query, World, int_key, int_future}
use beryldb.Query.{
  dest_of, timer_of, write, delete, del_future, access_set, set_ok, store_of, set_store, put_result,
}
use beryldb.Query.Deletes.{get-delete}
use beryldb.Query.Places.{dest_of-injective}
use beryldb.Routed.Timers.{future_exec, future_exec_on, stored_future, file2}

-- Where the mutex is free `Delete` returns.
delete-ret :
    (s : FutureManager) (db : ℕ) (key : Str) (select : ℕ)
    → s.mute ≡ false
    → (f : FutureManager) × (b : Bool) × (Futures.delete db key select s ≡ ret (f, b))
delete-ret s db key select free = (_, _, delete_lem s free db key select)

module _ (r : Rocks) where
  -- The place of the future of a query.
  abbrev pub future_at : Query → World r → Str
  future_at q w = timer_of q.key q.select_query int_future (w.name q.database)

  abbrev pub look : Query → World r → Str → Option Str
  look q w j = r.get (w.databases q.database) j

  key-ne-future :
      (q : Query) (w : World r)
      → IsBytes q.key
      → str_eq (future_at q w) (dest_of q.key q.select_query int_key) ≡ false
  unfolding timer_of
  key-ne-future q w bytes =
      elim (Bool-cases (str_eq (future_at q w) (dest_of q.key q.select_query int_key))) [
        | inl e ↦
            let same =
              dest_of-injective q.key q.key q.select_query q.select_query
                (int_future ++ b':' ∷ w.name q.database) int_key bytes bytes
                ((str_eq_iff (future_at q w) (dest_of q.key q.select_query int_key)).0 e) in
            absurd (cc (same.2))
        | inr e ↦ e
      ]

  abbrev pub Gone : Query → World r → Outcome (Query × World r) → Type 0
  Gone q w (ret (q', w')) = look q w' (future_at q w) ≡ none
  Gone q w (fault e) = ⊥

  module _ (store : IsStore r) (deletes : Deletes r) where
    del_future_lem :
        (q : Query) (w : World r)
        → w.futures.mute ≡ false
        → (f : FutureManager) × (del_future r q w
            ≡ ret (delete r q (record w { futures = f }) (future_at q w)))
    unfolding del_future
    del_future_lem q w free =
        let (f, b, deleted) = delete-ret w.futures q.database q.key q.select_query free in
        (f, rw deleted refl)

    write-frame :
        (q : Query) (w : World r) (at v : Str)
        → ((write r q w at v).0.futures ≡ w.futures) × ((write r q w at v).0.name ≡ w.name)
    unfolding write put_result set_store store_of
    write-frame q w at v = elim (Option-cases (r.put (w.databases q.database) at v)) [
      | inl e ↦ rw e (refl, refl)
      | inr (s, e) ↦ rw e (refl, refl)
    ]

    look-delete :
        (q : Query) (w : World r) (f : FutureManager) (at j : Str)
        → look q (delete r q (record w { futures = f }) at) j
          ≡ (if str_eq at j then none else look q w j)
    look-delete q w f at j = get-delete r q (record w { futures = f }) at store deletes j

    on-Gone :
        (o : Option Str) (q : Query) (w : World r)
        → w.futures.mute ≡ false
        → Gone q w (future_exec_on r o q w)
    unfolding future_exec_on access_set set_ok
    on-Gone none q w free =
        let (f, gone) = del_future_lem q w free in
        rw gone (
          look-delete q w f (future_at q w) (future_at q w) ∙ rw (str_eq_refl (future_at q w)) refl)
    on-Gone (some v) q w free =
        let q1 : Query = record q { dest = dest_of q.key q.select_query int_key } in
        let w1 = (write r q1 w q1.dest (to_bin (file2 v))).0 in
        let (futures, name) = write-frame q1 w q1.dest (to_bin (file2 v)) in
        let at : future_at q w1 ≡ future_at q w =
          ap (λ n. timer_of q.key q.select_query int_future (n q.database)) name in
        let (f, gone) = del_future_lem q1 w1 (ap (λ x. x.mute) futures ∙ free) in
        rw gone (
          look-delete q w1 f (future_at q w1) (future_at q w)
          ∙ rw at (rw (str_eq_refl (future_at q w)) refl))

    -- Where the mutex of the futures is free and no Delete fails, `future_exec_query::Run` returns and leaves no future of
    -- its key in the store, whether or not there was one and whether or not its value could be written.
    pub future_exec-Gone :
        (q : Query) (w : World r) → w.futures.mute ≡ false → Gone q w (future_exec r q w)
    unfolding future_exec
    future_exec-Gone q w free = on-Gone (stored_future r q w) q w free

    -- Where there is a future of the key, its mutex is free, the key consists of bytes, the store takes the value and no
    -- Delete fails, `future_exec_query::Run` succeeds, with the value of the future in binary digits at the place of
    -- the key and no future left.
    pub future_exec-sets :
        (q : Query) (w : World r) (v : Str) (s : r.State)
        → IsBytes q.key
        → w.futures.mute ≡ false
        → look q w (future_at q w) ≡ some v
        → r.put (w.databases q.database) (dest_of q.key q.select_query int_key) (to_bin (file2 v))
          ≡ some s
        → (q' : Query) × (w' : World r) × (future_exec r q w ≡ ret (q', w'))
          × (q'.finished ≡ true)
          × (look q w' (dest_of q.key q.select_query int_key) ≡ some (to_bin (file2 v)))
          × (look q w' (future_at q w) ≡ none)
    unfolding future_exec stored_future future_exec_on write put_result set_store store_of set_ok
    future_exec-sets q w v s bytes free found put =
        let at = dest_of q.key q.select_query int_key in
        let q1 : Query = record q { dest = at } in
        let w1 = set_store r q.database s w in
        let (f, gone) = del_future_lem q1 w1 free in
        (
          set_ok q1,
          delete r q1 (record w1 { futures = f }) (future_at q w),
          ap (λ o. future_exec_on r o q w) found ∙ rw put (rw gone refl),
          refl,
          look-delete q1 w1 f (future_at q w) at
              ∙ rw (key-ne-future q w bytes) (
                  ground (
                    arith,
                    store.get-put (w.databases q.database) s at (to_bin (file2 v)) at put,
                    str_eq_refl at,
                  )),
          look-delete q1 w1 f (future_at q w) (future_at q w)
              ∙ rw (str_eq_refl (future_at q w)) refl,
        )
