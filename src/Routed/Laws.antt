-- ===== src/Routed/Laws.antt =====
-- What the store holds behind the queries of src/brldb/*_hints.cpp.
use beryldb.Prelude.{
  ℕ, suc, ◌≡◌, ◌≢◌, ◌⊎◌, refl, sym, ap, ◌∙◌, true, false, Option, none, some, List, [], ◌∷◌, Str,
  str_eq, str_eq_refl, arith, ◌==◌, if◌then◌else◌, Option-cases, inl, inr,
}
use beryldb.Machine.{Outcome, ret, fault, to_int}
use beryldb.Codec.{to_bin}
use beryldb.Convert.{conv_numeric, convto_num}
use beryldb.Machine.{ℤ}
use beryldb.Machine.ℤ.{pos, negsuc}
use beryldb.Expires
use beryldb.Expires.{ExpireManager, time_result, is_for}
use beryldb.Stl.Timed.{find_first}
use beryldb.Expires.Mutex.{add_from_lem, get_time_lem}
use beryldb.Rocks.{Rocks, IsStore, Deletes, BatchOp, put_op, delete_op}
use beryldb.Query.Types.{DblCode, Query, World, int_key, int_expire}
use beryldb.Query.{
  timer_of, get, delete, swap, expire_batch, expires_add, access_set, set_ok, or_empty, is_expiring,
  store_of, set_store, put_result,
}
use beryldb.Query.Deletes.{get-delete, delete-elsewhere}
use beryldb.Query.Prepare.{Run}
use beryldb.Routed.{
  renamed_to, moved_to, batch_done, on_timer, rename, renamenx, rename_rest, move, move_rest, clone,
  clone_keys, clone_rest, transfer, transfer_to,
}

-- Where the mutex is free `Add` returns.
add-ret :
    (s : ExpireManager) (db : ℕ) (time : ℤ) (key : Str) (select now : ℕ)
    → s.mute ≡ false
    → (e : ExpireManager) × (t : ℤ) × (Expires.add db time key select true now s ≡ ret (e, t))
unfolding Expires.add
add-ret s db (negsuc n) key select now free = (s, negsuc 0, refl)
add-ret s db (pos n) key select now free = (_, _, add_from_lem s free db n key select true now)

some_inj : {a b : Str} → some a ≡ some b → a ≡ b
some_inj e = cc

module _ (r : Rocks) where
  expires_add-ret :
      (db ttl : ℕ) (key : Str) (select : ℕ) (w : World r)
      → w.expires.mute ≡ false
      → (e : ExpireManager) × (expires_add r db ttl key select w ≡ ret (record w { expires = e }))
  unfolding expires_add
  expires_add-ret db ttl key select w free =
      let (e, t, added) = add-ret w.expires db (to_int ttl) key select w.now free in
      (e, rw added refl)

  -- The value at a place of a query's database.
  abbrev pub look : Query → World r → Str → Option Str
  look q w j = r.get (w.databases q.database) j

  -- The value goes from the query's place to another, and the query is done; or nothing changes, and the status
  -- says that the batch failed.
  abbrev pub Moves : Str → Query → World r → Outcome (Query × World r) → Type 0
  Moves to q w (ret (q', w')) =
      ((q' ≡ set_ok q)
        × ((j : Str)
            → look q w' j ≡ (
                if str_eq q.dest j
                then none
                else if str_eq to j
                then some (or_empty (get r q w q.dest))
                else look q w j)))
      ⊎ ((q' ≡ access_set DblCode.batch_failed q) × (w' ≡ w))
  Moves to q w (fault e) = ⊥

  -- No batch fails.
  abbrev pub Batches : Type 0
  Batches = (s : r.State) (ops : List BatchOp) → (s' : r.State) × (r.write s ops ≡ some s')

  module _ (store : IsStore r) where
    swap-Moves :
        (to : Str) (q : Query) (w : World r)
        → Moves to q w (
            let (w1, done) = swap r q.database w to q.dest (or_empty (get r q w q.dest)) in
            ret (batch_done q done, w1))
    unfolding swap batch_done put_result store_of set_store
    swap-Moves to q w =
        let v = or_empty (get r q w q.dest) in
        let ops = put_op to v ∷ delete_op q.dest ∷ [] in
        elim (Option-cases (r.write (w.databases q.database) ops)) [
          | inl e ↦ rw e (inr (refl, refl))
          | inr (s, e) ↦
              rw e (
                inl (refl, λ j. ground (arith, store.get-write (w.databases q.database) s ops j e)))
        ]

    -- RENAME and RENAMENX of a key that is no plain key: every place but the old and the new one is as it was, the old
    -- one is empty, and the new one has the value where it is another place than the old one, so RENAME of a key to
    -- its own name deletes the key; or the batch failed and nothing changed.
    pub rename-Moves :
        (q : Query) (w : World r)
        → str_eq q.identified int_key ≡ false
        → Moves (renamed_to q) q w (rename r q w) × Moves (renamed_to q) q w (renamenx r q w)
    unfolding rename renamenx on_timer rename_rest
    rename-Moves q w h = rw h (swap-Moves (renamed_to q) q w, swap-Moves (renamed_to q) q w)

    pub move-Moves :
        (q : Query) (w : World r)
        → str_eq q.identified int_key ≡ false
        → Moves (moved_to q) q w (move r q w)
    unfolding move on_timer move_rest
    move-Moves q w h = rw h (swap-Moves (moved_to q) q w)

    -- The branch for a plain key with a timer.
    on_timer-keys :
        (q : Query) (w : World r) (n : ℕ) (keys rest : Run r)
        → q.identified ≡ int_key
        → w.expires.mute ≡ false
        → time_result (find_first (is_for q.database q.key q.select_query) w.expires.expire_list)
          ≡ pos (suc n)
        → on_timer r q w keys rest ≡ keys (record q { id = suc n }) w
    unfolding on_timer is_expiring
    on_timer-keys q w n keys rest plain free timer =
        rw (ap (λ t. str_eq t int_key) plain ∙ str_eq_refl int_key) (
          rw (get_time_lem w.expires free q.database q.key q.select_query)
            (rw timer (ground arith)))

    clone_keys-select :
        (q : Query) (w : World r)
        → Batches
        → w.expires.mute ≡ false
        → (w' : World r) × (clone_keys r q w ≡ ret (set_ok q, w'))
          × (look q w' (moved_to q) ≡ some (to_bin q.value))
    unfolding clone_keys expire_batch put_result store_of set_store
    clone_keys-select q w batches free =
        let ops =
          put_op (timer_of q.key (convto_num q.value) int_expire (w.name q.database))
            (conv_numeric q.id)
          ∷ put_op (moved_to q) (to_bin q.value)
          ∷ [] in
        let (s, e) = batches (w.databases q.database) ops in
        let w1 = set_store r q.database s w in
        let (m, added) = expires_add-ret q.database q.id q.key (convto_num q.value) w1 free in
        (
          record w1 { expires = m },
          rw e (rw added refl),
          ground (
            arith,
            store.get-write (w.databases q.database) s ops (moved_to q) e,
            str_eq_refl (moved_to q),
          ),
        )

    -- TRANSFER of a key that is no plain key to a database that takes no write, where no Delete fails: the other
    -- database stays as it was, and the key is gone from its own.
    pub transfer-lost :
        (q : Query) (w : World r) (db : ℕ)
        → Deletes r
        → str_eq q.identified int_key ≡ false
        → q.transf_db ≡ some db
        → ((at v : Str) → r.put (w.databases db) at v ≡ none)
        → (w' : World r) × (transfer r q w ≡ ret (q, w'))
          × (look q w' q.dest ≡ none)
          × ((d : ℕ) → (d == q.database) ≡ false → w'.databases d ≡ w.databases d)
    unfolding transfer put_result store_of
    transfer-lost q w db deletes h to full = (
      delete r q w q.dest,
      ap (λ o. transfer_to r o q w) to ∙ rw h (rw full refl),
      get-delete r q w q.dest store deletes q.dest ∙ rw (str_eq_refl q.dest) refl,
      delete-elsewhere r q w q.dest,
    )

    -- CLONE of a plain key with a timer, where no batch fails: it finishes, and what stands at the clone's place is
    -- the text of the select that it is cloned to in binary digits, and so not the value of the key, unless the value
    -- is that text.
    pub clone-select :
        (q : Query) (w : World r) (n : ℕ) (v : Str)
        → Batches
        → q.identified ≡ int_key
        → w.expires.mute ≡ false
        → time_result (find_first (is_for q.database q.key q.select_query) w.expires.expire_list)
          ≡ pos (suc n)
        → look q w q.dest ≡ some v
        → v ≢ to_bin q.value
        → (w' : World r) × (clone r q w ≡ ret (set_ok (record q { id = suc n }), w'))
          × (look q w' (moved_to q) ≡ some (to_bin q.value))
          × (look q w' (moved_to q) ≢ look q w q.dest)
    unfolding clone on_timer is_expiring clone_keys moved_to
    clone-select q w n v batches plain free timer stored differs =
        let q1 : Query = record q { id = suc n } in
        let (w', done, there) = clone_keys-select q1 w batches free in
        (
          w',
          on_timer-keys q w n (clone_keys r) (clone_rest r) plain free timer ∙ done,
          there,
          λ same. differs (some_inj (sym stored ∙ sym same ∙ there)),
        )
