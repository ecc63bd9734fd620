-- ===== src/Operations.antt =====
-- src/brldb/operation.cpp: `type_query`, `sflush_query`, `touch_query`, `ntouch_query` and `total_query`, on an
-- iterator that is not interrupted. The others compute on double, or count into a map that only `Process` reads.
pub mod Laws
pub mod Tests
use beryldb.Prelude.{
  ℕ, suc, ◌+◌, Bool, true, false, not, List, [], ◌∷◌, Str, str_eq, ◌==◌, if◌then◌else◌,
}
use beryldb.Machine.{ret, incr32}
use beryldb.Convert.{conv_numeric}
use beryldb.Nodes.{node_stream, colon_node_stream, all_items}
use beryldb.Rocks.{Rocks}
use beryldb.Query.Types.{Query, World}
use beryldb.Query.{delete, set_ok, check_dest, store_of}
use beryldb.Query.Prepare.{Run}

-- `skip` behind the loop over the tokens of a stored key: only the token behind the first is compared.
unfoldable pub skips_select : Str → List Str → Bool
skips_select select [] = false
skips_select select (key ∷ []) = false
skips_select select (key ∷ token ∷ tokens) = not (str_eq select token)

unfoldable pub skips : Str → Str → Bool
unfolding skips_select
skips select rawmap = skips_select select (all_items (colon_node_stream rawmap))

unfoldable pub total_loop : Str → ℕ → List (Str × Str) → ℕ
unfolding skips
total_loop select counter [] = counter
total_loop select counter ((rawmap, rawvalue) ∷ entries) =
    total_loop select (if skips select rawmap then counter else incr32 counter) entries

module _ (r : Rocks) where
  pub type : Run r
  type q w = ret (set_ok q, w)

  -- The select is text in the field `key`.
  unfoldable pub sflush_loop : Query → World r → List (Str × Str) → World r
  unfolding skips
  sflush_loop q w [] = w
  sflush_loop q w ((rawmap, rawvalue) ∷ entries) =
      sflush_loop q (if skips q.key rawmap then w else delete r q w rawmap) entries

  pub sflush : Run r
  unfolding sflush_loop
  sflush q w = ret (set_ok q, sflush_loop q w (r.entries (store_of r q.database w)))

  -- How many of the keys are found, or are not.
  unfoldable pub touch_loop : Bool → Query → World r → ℕ → List Str → ℕ
  touch_loop wanted q w touch_count [] = touch_count
  touch_loop wanted q w touch_count (token ∷ tokens) =
      let missing = check_dest r q w q.select_query token q.base_request q.database == 0 in
      let count = if missing then not wanted else wanted in
      touch_loop wanted q w (if count then incr32 touch_count else touch_count) tokens

  pub touch : Run r
  unfolding touch_loop
  touch q w =
      let found = touch_loop true q w 0 (all_items (node_stream q.value b' ' false)) in
      ret (set_ok (record q { counter = found }), w)

  pub ntouch : Run r
  unfolding touch_loop
  ntouch q w =
      let found = touch_loop false q w 0 (all_items (node_stream q.value b' ' false)) in
      ret (set_ok (record q { counter = found }), w)

  pub total : Run r
  unfolding total_loop
  total q w =
      let found =
        total_loop (conv_numeric q.select_query) 0 (r.entries (store_of r q.database w)) in
      ret (set_ok (record q { counter = found }), w)
