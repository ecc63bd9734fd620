-- ===== src/Routed.antt =====
-- src/brldb/*_hints.cpp: the queries that work on a key of any type, `Run` of each on the store. The methods
-- for single types that are not here are empty in the source.
pub mod Timers
pub mod Diff
pub mod Tests
pub mod Laws
use beryldb.Prelude.{
  ℕ, ◌||◌, ◌++◌, Bool, true, false, Option, none, some, List, [], ◌∷◌, Str, codes, is_empty, str_eq,
  ltb, if◌then◌else◌,
}
use beryldb.Machine.{Outcome, ret, fault, ◌>>=◌, null_pointer, ℤ}
use beryldb.Machine.ℤ.{pos, negsuc}
use beryldb.Codec.{to_bin}
use beryldb.Convert.{conv_numeric, convto_num}
use beryldb.Expires
use beryldb.Rocks.{Rocks, put_op, delete_op}
use beryldb.Query.Types.{DblCode, Query, World, int_key, int_expire, process_null}
use beryldb.Query.{
  dest_of, timer_of, get, write, delete, swap, swap_with_expire, expire_batch, write_expire,
  del_expire, expires_add, is_expiring, access_set, set_ok, or_empty, store_of, set_store,
  put_result,
}
use beryldb.Query.Prepare.{Run}
use beryldb.Query.Replies.{one_or_zero}

-- `ttl > 0`, with the ttl.
abbrev pub ttl_of : ℤ → Option ℕ
ttl_of (pos n) = if ltb 0 n then some n else none
ttl_of (negsuc n) = none

-- The place behind the texts of a key and of a select.
unfoldable pub moved_to : Query → Str
moved_to q = to_bin q.key ++ b':' ∷ (q.value ++ b':' ∷ q.identified)

unfoldable pub renamed_to : Query → Str
unfolding dest_of
renamed_to q = dest_of q.value q.select_query q.identified

-- if (!done) access_set(DBL_BATCH_FAILED) else SetOK().
unfoldable pub batch_done : Query → Bool → Query
unfolding access_set set_ok
batch_done q done = if done then set_ok q else access_set DblCode.batch_failed q

module _ (r : Rocks) where
  -- For a plain key with a timer the branch of keys, with the ttl in `id`; for all others the rest of `Run`.
  unfoldable pub on_timer : Query → World r → Run r → Run r → Outcome (Query × World r)
  unfolding is_expiring
  on_timer q w keys rest =
      if str_eq q.identified int_key
      then (do
        (w1, ttl) ← is_expiring r q w
        elim (ttl_of ttl) [ none ↦ rest q w1 | some n ↦ keys (record q { id = n }) w1 ])
      else rest q w

  unfoldable pub rename_keys : Run r
  unfolding renamed_to batch_done get swap_with_expire
  rename_keys q w = do
    let value = or_empty (get r q w q.dest)
    (w1, done) ←
        swap_with_expire r q w (renamed_to q) q.dest value q.select_query q.value q.id q.key
    ret (batch_done q done, w1)

  unfoldable pub rename_rest : Run r
  unfolding renamed_to batch_done get swap
  rename_rest q w =
      let (w1, done) = swap r q.database w (renamed_to q) q.dest (or_empty (get r q w q.dest)) in
      ret (batch_done q done, w1)

  unfoldable pub rename : Run r
  unfolding on_timer rename_keys rename_rest
  rename q w = on_timer q w rename_keys rename_rest

  unfoldable pub renamenx : Run r
  unfolding on_timer rename_keys rename_rest
  renamenx q w = on_timer q w rename_keys rename_rest

  -- The timer of the copy.
  unfoldable pub copy_keys : Query → World r → Outcome (World r)
  unfolding is_expiring write_expire
  copy_keys q w = do
    (w1, ttl) ← is_expiring r q w
    elim (ttl_of ttl) [ none ↦ ret w1 | some n ↦ write_expire r q w1 q.value q.select_query n ]

  -- The status stays as it was.
  unfoldable pub copy : Run r
  unfolding copy_keys renamed_to get write
  copy q w = do
    w1 ← if str_eq q.identified int_key then copy_keys q w else ret w
    ret (q, (write r q w1 (renamed_to q) (or_empty (get r q w1 q.dest))).0)

  -- What is written beside the timer is the field `value`, the text of the select.
  unfoldable pub clone_keys : Run r
  unfolding moved_to expire_batch
  clone_keys q w = do
    w1 ← expire_batch r q w (moved_to q) q.value q.key (convto_num q.value) q.id
    ret (set_ok q, w1)

  unfoldable pub clone_rest : Run r
  unfolding moved_to get write
  clone_rest q w = ret (set_ok q, (write r q w (moved_to q) (or_empty (get r q w q.dest))).0)

  unfoldable pub clone : Run r
  unfolding on_timer clone_keys clone_rest
  clone q w = on_timer q w clone_keys clone_rest

  unfoldable pub move_keys : Run r
  unfolding moved_to put_result get expires_add
  move_keys q w = do
    let db = q.database
    let lookup = to_bin q.key ++ b':' ∷ (q.value ++ b':' ∷ (int_expire ++ b':' ∷ w.name db))
    let ops =
        put_op (moved_to q) (or_empty (get r q w q.dest))
        ∷ delete_op q.dest
        ∷ put_op lookup (conv_numeric q.id)
        ∷ []
    let (w1, done) = put_result r db w (r.write (store_of r db w) ops)
    if done
        then (do
          (e, _) ← Expires.delete db q.key q.select_query w1.expires
          w2 ← expires_add r db q.id q.key (convto_num q.value) (record w1 { expires = e })
          ret (set_ok q, w2))
        else ret (access_set DblCode.batch_failed q, w1)

  unfoldable pub move_rest : Run r
  unfolding moved_to batch_done get swap
  move_rest q w =
      let (w1, done) = swap r q.database w (moved_to q) q.dest (or_empty (get r q w q.dest)) in
      ret (batch_done q done, w1)

  unfoldable pub move : Run r
  unfolding on_timer move_keys move_rest
  move q w = on_timer q w move_keys move_rest

  -- `WriteExpire` with the other database: its name stands in the place, which is in the query's own store.
  unfoldable pub write_expire_to : Query → World r → ℕ → ℕ → Outcome (World r)
  unfolding write expires_add timer_of
  write_expire_to q w db ttl = do
    let (w1, done) =
        write r q w (timer_of q.key q.select_query int_expire (w.name db)) (conv_numeric ttl)
    if done then expires_add r db ttl q.key q.select_query w1 else ret w1

  unfoldable pub transfer_keys : Query → World r → ℕ → Outcome (World r)
  unfolding is_expiring del_expire write_expire_to
  transfer_keys q w db = do
    (w1, ttl) ← is_expiring r q w
    elim (ttl_of ttl) [
      | none ↦ ret w1
      | some n ↦ (do w2 ← del_expire r q w1; write_expire_to q w2 db n)
    ]

  -- The key is deleted whether or not the other database takes the value.
  unfoldable pub transfer_to : Option ℕ → Run r
  unfolding transfer_keys put_result get delete dest_of
  transfer_to none q w = fault null_pointer
  transfer_to (some db) q w = do
    w1 ← if str_eq q.identified int_key then transfer_keys q w db else ret w
    let at = dest_of q.key q.select_query q.identified
    let put = r.put (store_of r db w1) at (or_empty (get r q w1 q.dest))
    ret (q, delete r q (put_result r db w1 put).0 q.dest)

  unfoldable pub transfer : Run r
  unfolding transfer_to
  transfer q w = transfer_to q.transf_db q w

  unfoldable pub del_keys : Run r
  unfolding put_result timer_of
  del_keys q w = do
    let db = q.database
    let lookup = timer_of q.key q.select_query int_expire (w.name db)
    let ops = delete_op q.dest ∷ delete_op lookup ∷ []
    let (w1, done) = put_result r db w (r.write (store_of r db w) ops)
    if done
        then (do
          (e, _) ← Expires.delete db q.key q.select_query w1.expires
          ret (set_ok q, record w1 { expires = e }))
        else ret (access_set DblCode.batch_failed q, w1)

  unfoldable pub del_rest : Run r
  unfolding delete
  del_rest q w = ret (set_ok q, delete r q w q.dest)

  -- The timer is looked up twice.
  unfoldable pub del : Run r
  unfolding on_timer del_keys del_rest is_expiring
  del q w =
      if str_eq q.identified int_key
      then (do (w1, ttl) ← is_expiring r q w; on_timer q w1 del_keys del_rest)
      else del_rest q w

  unfoldable pub exists : Run r
  exists q w =
      let missing = is_empty q.identified || str_eq q.identified process_null in
      let reply = if missing then codes "0" else codes "1" in
      ret (set_ok (record q { response = reply }), w)
