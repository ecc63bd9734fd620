-- ===== src/Keys/Scan.antt =====
-- The iterator loops of src/brldb/keys.cpp, and of `lkeys_query`, `vkeys_query`, `hfind_query` of lists.cpp,
-- vectors.cpp and maps.cpp: the keys of one type that match a mask, for an iterator that is not interrupted.
use beryldb.Prelude.{
  ℕ, zero, suc, ◌+◌, Option, none, some, List, [], ◌∷◌, Str, str_eq, length, if◌then◌else◌,
}
use beryldb.Machine.{Outcome, ret, ◌>>=◌, to_u32}
use beryldb.Codec.{to_string}
use beryldb.Convert.{conv_numeric}
use beryldb.Match.{glob}
use beryldb.Nodes.{colon_node_stream, all_items}
use beryldb.Expires
use beryldb.Rocks.{Rocks}
use beryldb.Query.Types.{Query, World, int_key, int_list, int_vector, int_map}
use beryldb.Query.{delete, set_ok, del_expire, store_of}
use beryldb.Query.Prepare.{Run}
use beryldb.Query.Replies.{paged}
use beryldb.Query.Paging.{page_loop, start}

-- The loop over the tokens of a stored key: `strcounter`, the key so far, and `none` once it is to be skipped.
unfoldable pub token_loop : Str → ℕ → Str → ℕ → Str → List Str → Option Str
token_loop mask select type counter key [] = some key
token_loop mask select type zero key (token ∷ tokens) =
    let rest = token_loop mask select type 1 (to_string token) tokens in
    if glob (to_string token) mask then rest else none
token_loop mask select type (suc zero) key (token ∷ tokens) =
    let rest = token_loop mask select type 2 key tokens in
    if str_eq (conv_numeric select) token then rest else none
token_loop mask select type (suc (suc zero)) key (token ∷ tokens) =
    let rest = token_loop mask select type 3 key tokens in if str_eq token type then rest else none
token_loop mask select type (suc (suc (suc counter))) key (token ∷ tokens) =
    token_loop mask select type (counter + 4) key tokens

-- The key that a stored place shows to a query, `none` where the place is skipped.
unfoldable pub listed : Str → ℕ → Str → Str → Option Str
unfolding token_loop
listed mask select type rawmap =
    token_loop mask select type 0 [] (all_items (colon_node_stream rawmap))

unfoldable pub scan : Str → ℕ → Str → List (Str × Str) → List Str
unfolding listed
scan mask select type [] = []
scan mask select type ((rawmap, rawvalue) ∷ entries) =
    let rest = scan mask select type entries in
    elim (listed mask select type rawmap) [ none ↦ rest | some key ↦ key ∷ rest ]

module _ (r : Rocks) where
  -- The loop that pages the keys of a type.
  pub list_keys : Str → Run r
  unfolding scan
  list_keys type q w =
      let keys = scan q.key q.select_query type (r.entries (store_of r q.database w)) in
      let p = page_loop q.offset q.limit keys start in paged r q w p p.aux

  pub keys : Run r
  unfolding list_keys
  keys q w = list_keys int_key q w

  pub lkeys : Run r
  unfolding list_keys
  lkeys q w = list_keys int_list q w

  pub vkeys : Run r
  unfolding list_keys
  vkeys q w = list_keys int_vector q w

  pub hfind : Run r
  unfolding list_keys
  hfind q w = list_keys int_map q w

  unfoldable pub count : Run r
  unfolding scan
  count q w =
      let found = scan q.key q.select_query int_key (r.entries (store_of r q.database w)) in
      ret (set_ok (record q { counter = to_u32 (length found) }), w)

  -- The loop of `wdel_query::Run`; what is deleted of the timers in the store is the query's own key, the mask.
  unfoldable pub wdel_loop : Query → World r → ℕ → List (Str × Str) → Outcome (World r × ℕ)
  unfolding listed
  wdel_loop q w counter [] = ret (w, counter)
  wdel_loop q w counter ((rawmap, rawvalue) ∷ entries) =
      elim (listed q.key q.select_query int_key rawmap) [
        | none ↦ wdel_loop q w counter entries
        | some key ↦ (do
          (e, _) ← Expires.delete q.database key q.select_query (delete r q w rawmap).expires
          w1 ← del_expire r q (record (delete r q w rawmap) { expires = e })
          wdel_loop q w1 (to_u32 (counter + 1)) entries)
      ]

  pub wdel : Run r
  unfolding wdel_loop
  wdel q w = do
    (w1, counter) ← wdel_loop q w 0 (r.entries (store_of r q.database w))
    ret (set_ok (record q { counter = counter }), w1)
