-- ===== src/Query.antt =====
-- src/brldb/query.cpp: `QueryBase`, what every query does with the store before and while it runs. RocksDB
-- and the method `Run` of the query are parameters; a pointer to a database is a number.
pub mod Types
pub mod Prepare
pub mod Classes
pub mod Replies
pub mod Places
pub mod Deletes
pub mod Registered
pub mod Typing
pub mod Kinds
pub mod Reads
pub mod Tests
pub mod Paging
use beryldb.Prelude.{
  ℕ, Bool, true, false, ◌&&◌, Option, none, some, List, [], ◌∷◌, ◌++◌, Str, str_eq, is_empty, ◌==◌,
  if◌then◌else◌,
}
use beryldb.Machine.{Outcome, ret, fault, ◌>>=◌, to_int, ℤ}
use beryldb.Machine.ℤ.{pos, negsuc}
use beryldb.Codec.{to_bin}
use beryldb.Convert.{conv_numeric, convto_num}
use beryldb.Expires
use beryldb.Expires.{is_positive}
use beryldb.Futures
use beryldb.Rocks.{Rocks, BatchOp, put_op, delete_op}
use beryldb.Query.Types.{
  QueryType, DblCode, Query, World, Page, type_regs, process_null, int_expire, int_future,
}

-- to_bin(key) + ":" + convto_string(select) + ":" + type.
unfoldable pub dest_of : Str → ℕ → Str → Str
dest_of key select type = to_bin key ++ b':' ∷ (conv_numeric select ++ b':' ∷ type)

-- The place of a timer: the database's name stands behind its type.
unfoldable pub timer_of : Str → ℕ → Str → Str → Str
unfolding dest_of
timer_of key select type name = dest_of key select (type ++ b':' ∷ name)

unfoldable pub access_set : DblCode → Query → Query
access_set code q = record q { access = code }

unfoldable pub set_ok : Query → Query
set_ok q = record q { finished = true }

abbrev pub or_empty : Option Str → Str
or_empty none = []
or_empty (some v) = v

module _ (r : Rocks) where
  unfoldable pub store_of : ℕ → World r → r.State
  store_of db w = w.databases db

  unfoldable pub set_store : ℕ → r.State → World r → World r
  set_store db s w = record w { databases = λ d. if d == db then s else w.databases d }

  -- What `Get` gives: the loaded value whatever the place is, once one is loaded.
  unfoldable pub get : Query → World r → Str → Option Str
  unfolding store_of
  get q w at = elim q.mapped [ none ↦ r.get (store_of q.database w) at | some v ↦ some v ]

  unfoldable pub put_result : ℕ → World r → Option r.State → World r × Bool
  put_result db w none = (w, false)
  put_result db w (some s) = (set_store db s w, true)

  unfoldable pub write : Query → World r → Str → Str → World r × Bool
  unfolding store_of set_store put_result
  write q w at v = put_result q.database w (r.put (store_of q.database w) at v)

  -- The status of Delete is not looked at.
  unfoldable pub delete : Query → World r → Str → World r
  unfolding store_of set_store put_result
  delete q w at = (put_result q.database w (r.delete (store_of q.database w) at)).0

  -- Put of the new place and delete of the old one in one batch.
  unfoldable pub swap : ℕ → World r → Str → Str → Str → World r × Bool
  unfolding store_of set_store put_result
  swap db w newdest ldest lvalue =
      put_result db w (r.write (store_of db w) (put_op newdest lvalue ∷ delete_op ldest ∷ []))

  -- `ExpireManager::Add` with an epoch, on the manager of the world.
  unfoldable pub expires_add : ℕ → ℕ → Str → ℕ → World r → Outcome (World r)
  expires_add db ttl key select w = do
    (e, _) ← Expires.add db (to_int ttl) key select true w.now w.expires
    ret (record w { expires = e })

  unfoldable pub write_expire : Query → World r → Str → ℕ → ℕ → Outcome (World r)
  unfolding write expires_add timer_of
  write_expire q w key select ttl = do
    let (w1, done) =
        write q w (timer_of key select int_expire (w.name q.database)) (conv_numeric ttl)
    if done then expires_add q.database ttl key select w1 else ret w1

  unfoldable pub expire_batch : Query → World r → Str → Str → Str → ℕ → ℕ → Outcome (World r)
  unfolding store_of put_result set_store expires_add timer_of
  expire_batch q w wdest lvalue key select ttl = do
    let lookup = timer_of key select int_expire (w.name q.database)
    let ops = put_op lookup (conv_numeric ttl) ∷ put_op wdest (to_bin lvalue) ∷ []
    let (w1, done) = put_result q.database w (r.write (store_of q.database w) ops)
    if done then expires_add q.database ttl key select w1 else ret w1

  unfoldable pub del_expire : Query → World r → Outcome (World r)
  unfolding delete timer_of
  del_expire q w = do
    (e, _) ← Expires.delete q.database q.key q.select_query w.expires
    ret (
        delete q (record w { expires = e })
          (timer_of q.key q.select_query int_expire (w.name q.database)))

  unfoldable pub del_future : Query → World r → Outcome (World r)
  unfolding delete timer_of
  del_future q w = do
    (f, _) ← Futures.delete q.database q.key q.select_query w.futures
    ret (
        delete q (record w { futures = f })
          (timer_of q.key q.select_query int_future (w.name q.database)))

  -- The timer of the old key goes and the one of the new key comes.
  unfoldable pub move_timer : ℕ → ℕ → Str → Str → ℕ → World r → Outcome (World r)
  unfolding expires_add
  move_timer db ttl oldkey lkey select w = do
    (e, _) ← Expires.delete db oldkey select w.expires
    expires_add db ttl lkey select (record w { expires = e })

  -- Put of the new place and its timer and delete of the old place in one batch; the managers follow.
  unfoldable pub swap_with_expire :
      Query → World r → Str → Str → Str → ℕ → Str → ℕ → Str → Outcome (World r × Bool)
  unfolding store_of put_result set_store move_timer timer_of
  swap_with_expire q w newdest ldest lvalue select lkey ttl oldkey = do
    let lookup = timer_of lkey select int_expire (w.name q.database)
    let ops = put_op newdest lvalue ∷ delete_op ldest ∷ put_op lookup (conv_numeric ttl) ∷ []
    let (w1, done) = put_result q.database w (r.write (store_of q.database w) ops)
    w2 ← if done then move_timer q.database ttl oldkey lkey select w1 else ret w1
    ret (w2, done)

  -- `FutureManager::Add` with an epoch.
  unfoldable pub add_future : ℕ → ℕ → Str → Str → ℕ → World r → Outcome (World r)
  add_future db ttl key value select w = do
    (f, _) ← Futures.add db (to_int ttl) key value select true w.now w.futures
    ret (record w { futures = f })

  unfoldable pub write_future : Query → World r → Str → ℕ → ℕ → Str → Outcome (World r)
  unfolding write timer_of add_future
  write_future q w key select ttl value = do
    let lookup = timer_of key select int_future (w.name q.database)
    let (w1, done) = write q w lookup (conv_numeric ttl ++ b':' ∷ value)
    if done then add_future q.database ttl key value select w1 else ret w1

  unfoldable pub is_expiring : Query → World r → Outcome (World r × ℤ)
  is_expiring q w = do
    (e, ttl) ← Expires.get_time q.database q.key q.select_query w.expires
    ret (record w { expires = e }, if is_positive ttl then ttl else negsuc 0)

  -- The first type under which the key is stored, with the value there.
  unfoldable pub registry_loop : Query → World r → ℕ → Str → List Str → Option (Str × Str)
  unfolding store_of
  registry_loop q w select regkey [] = none
  registry_loop q w select regkey (found_type ∷ types) =
      let rest = registry_loop q w select regkey types in
      elim (r.get (store_of q.database w) (dest_of regkey select found_type)) [
        | none ↦ rest
        | some v ↦ some (found_type, v)
      ]

  unfoldable pub registered : Query → ℕ → Str → Bool → Option (Str × Str) → Query × Bool
  registered q select regkey do_load none = (record q { identified = process_null }, false)
  registered q select regkey do_load (some (found_type, v)) = (
    record q {
      identified = found_type;
      dest = dest_of regkey select found_type;
      mapped = if do_load then some v else q.mapped;
    },
    true,
  )

  unfoldable pub get_registry : Query → World r → ℕ → Str → Bool → Query × Bool
  unfolding registry_loop registered dest_of
  get_registry q w select regkey do_load =
      registered q select regkey do_load (registry_loop q w select regkey type_regs)

  -- 1 for a value of the type that is wanted, 2 for one of another, 0 for none.
  unfoldable pub check_loop : r.State → ℕ → Str → Str → List Str → ℕ
  check_loop s select regkey ltype [] = 0
  check_loop s select regkey ltype (found_type ∷ types) =
      let rest = check_loop s select regkey ltype types in
      if is_empty (or_empty (r.get s (dest_of regkey select found_type)))
      then rest
      else if str_eq found_type ltype
      then 1
      else 2

  unfoldable pub check_dest : Query → World r → ℕ → Str → Str → ℕ → ℕ
  unfolding check_loop store_of dest_of
  check_dest q w select regkey ltype db =
      if db == q.database
        && select == q.select_query
        && str_eq q.key regkey
        && str_eq ltype q.identified
      then 1
      else check_loop (store_of db w) select regkey ltype type_regs
