-- ===== src/Routed/Timers.antt =====
-- src/brldb/etc.cpp and the first query of src/brldb/keys.cpp: the queries on timers and futures, for an iterator
-- that is not interrupted. KeepExpires and KeepFutures of the configuration are arguments.
use beryldb.Prelude.{
  ℕ, zero, suc, ◌+◌, ◌||◌, not, Bool, true, false, Option, none, some, List, [], ◌∷◌, Str, str_eq,
  is_empty, take, drop, ◌==◌, if◌then◌else◌,
}
use beryldb.Machine.{Outcome, ret, ◌>>=◌}
use beryldb.Codec.{to_bin, to_string}
use beryldb.Convert.{convto_num, convto_signed}
use beryldb.Nodes.{colon_node_stream, all_items, index_of}
use beryldb.Expires
use beryldb.Futures
use beryldb.Rocks.{Rocks}
use beryldb.Query.Types.{DblCode, Query, World, int_key, int_expire, int_future}
use beryldb.Query.{
  dest_of, timer_of, write, delete, write_expire, write_future, del_future, access_set, set_ok,
  store_of,
}
use beryldb.Query.Prepare.{Run}
pub mod Laws

-- The loop over the tokens of a stored place: the key and the select behind a timer, `none` where it is skipped.
unfoldable pub expire_tokens : Str → ℕ → Str → Str → List Str → Option (Str × Str)
expire_tokens name counter key select [] = some (key, select)
expire_tokens name zero key select (token ∷ tokens) =
    expire_tokens name 1 (to_string token) select tokens
expire_tokens name (suc zero) key select (token ∷ tokens) = expire_tokens name 2 key token tokens
expire_tokens name (suc (suc zero)) key select (token ∷ tokens) =
    let rest = expire_tokens name 3 key select tokens in
    if str_eq token int_expire then rest else none
expire_tokens name (suc (suc (suc zero))) key select (token ∷ tokens) =
    let rest = expire_tokens name 4 key select tokens in
    if is_empty token || not (str_eq token name) then none else rest
expire_tokens name (suc (suc (suc (suc n)))) key select (token ∷ tokens) =
    expire_tokens name (n + 5) key select tokens

-- As above. That the name of the database differs only continues the loop over the tokens.
unfoldable pub future_tokens : ℕ → Str → Str → List Str → Option (Str × Str)
future_tokens counter key select [] = some (key, select)
future_tokens zero key select (token ∷ tokens) = future_tokens 1 (to_string token) select tokens
future_tokens (suc zero) key select (token ∷ tokens) = future_tokens 2 key token tokens
future_tokens (suc (suc zero)) key select (token ∷ tokens) =
    let rest = future_tokens 3 key select tokens in if str_eq token int_future then rest else none
future_tokens (suc (suc (suc n))) key select (token ∷ tokens) =
    future_tokens (n + 3) key select tokens

-- The parts of a stored future, before and behind the first ':'.
unfoldable pub path2 : Str → Str
path2 s = elim (index_of b':' s) [ none ↦ s | some found ↦ take found s ]

unfoldable pub file2 : Str → Str
file2 s = elim (index_of b':' s) [ none ↦ s | some found ↦ drop (found + 1) s ]

module _ (r : Rocks) where
  unfoldable pub expire_list_loop : Bool → Query → World r → List (Str × Str) → Outcome (World r)
  unfolding expire_tokens delete
  expire_list_loop keep q w [] = ret w
  expire_list_loop keep q w ((rawmap, rawvalue) ∷ entries) =
      let tokens = all_items (colon_node_stream rawmap) in
      elim (expire_tokens (w.name q.database) 0 [] [] tokens) [
        | none ↦ expire_list_loop keep q w entries
        | some (key, select) ↦ elim keep [
          | true ↦ (do
            (e, _) ←
                Expires.add q.database (convto_signed rawvalue) key (convto_num select) true w.now
                  w.expires
            expire_list_loop keep q (record w { expires = e }) entries)
          | false ↦ expire_list_loop keep q (delete r q w rawmap) entries
        ]
      ]

  pub expire_list : Bool → Run r
  unfolding expire_list_loop
  expire_list keep q w = do
    w1 ← expire_list_loop keep q w (r.entries (store_of r q.database w))
    ret (q, w1)

  unfoldable pub future_list_loop : Bool → Query → World r → List (Str × Str) → Outcome (World r)
  unfolding future_tokens delete path2 file2
  future_list_loop keep q w [] = ret w
  future_list_loop keep q w ((rawmap, rawvalue) ∷ entries) =
      let tokens = all_items (colon_node_stream rawmap) in
      elim (future_tokens 0 [] [] tokens) [
        | none ↦ future_list_loop keep q w entries
        | some (key, select) ↦ elim keep [
          | true ↦ (do
            (f, _) ←
                Futures.add q.database (convto_signed (path2 rawvalue)) key (file2 rawvalue)
                  (convto_num select) true w.now w.futures
            future_list_loop keep q (record w { futures = f }) entries)
          | false ↦ future_list_loop keep q (delete r q w rawmap) entries
        ]
      ]

  pub future_list : Bool → Run r
  unfolding future_list_loop
  future_list keep q w = do
    w1 ← future_list_loop keep q w (r.entries (store_of r q.database w))
    ret (q, w1)

  pub future : Run r
  unfolding write_future
  future q w = do w1 ← write_future r q w q.key q.select_query q.id q.value; ret (set_ok q, w1)

  pub expire : Run r
  unfolding write_expire
  expire q w = do w1 ← write_expire r q w q.key q.select_query q.id; ret (set_ok q, w1)

  -- The future in the store, not the loaded value.
  unfoldable pub stored_future : Query → World r → Option Str
  unfolding timer_of store_of
  stored_future q w =
      r.get (store_of r q.database w) (timer_of q.key q.select_query int_future (w.name q.database))

  -- The value is written at the key, and the future goes on every branch.
  unfoldable pub future_exec_on : Option Str → Run r
  unfolding file2 write del_future
  future_exec_on none q w = do w1 ← del_future r q w; ret (access_set DblCode.not_found q, w1)
  future_exec_on (some v) q w = do
    let q1 : Query = record q { dest = dest_of q.key q.select_query int_key }
    let (w1, done) = write r q1 w q1.dest (to_bin (file2 v))
    w2 ← del_future r q1 w1
    ret (if done then set_ok q1 else access_set DblCode.unable_write q1, w2)

  unfoldable pub future_exec : Run r
  unfolding stored_future future_exec_on
  future_exec q w = future_exec_on (stored_future q w) q w

  unfoldable pub future_del : Run r
  unfolding stored_future del_future
  future_del q w = elim (stored_future q w) [
    | none ↦ ret (access_set DblCode.not_found q, w)
    | some v ↦ (do w1 ← del_future r q w; ret (set_ok q, w1))
  ]

  -- `dbm` finds the database of a name.
  pub dbreset : (Str → Option ℕ) → Run r
  dbreset dbm q w = do
    let closed : World r = record w { closing = λ d. if d == q.database then true else w.closing d }
    e ← Expires.pre_db_close dbm q.key closed.expires
    f ← Futures.pre_db_close dbm q.key closed.futures
    ret (q, record closed { expires = e; futures = f })
