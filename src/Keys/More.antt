-- ===== src/Keys/More.antt =====
-- src/brldb/keys.cpp and include/extras.h: the commands on a plain key that cut its text or count in it, and the
-- loops of SEARCH and RANDOM over an iterator that is not interrupted. `isalnum` is that of the C locale.
use beryldb.Prelude.{
  ℕ, zero, suc, ◌+◌, ◌-◌, ◌%◌, Bool, true, false, ◌&&◌, ◌||◌, not, Option, none, some, List, [],
  ◌∷◌, ◌++◌, Str, str_eq, is_empty, length, take, drop, leb, ltb, ◌==◌, if◌then◌else◌,
}
use beryldb.Machine.{Outcome, ret, fault, ◌>>=◌, out_of_range, endless, incr32, u32_mod, to_int, ℤ}
use beryldb.Machine.ℤ.{pos, negsuc}
use beryldb.Codec.{to_string}
use beryldb.Convert.{conv_numeric}
use beryldb.Match.{glob}
use beryldb.Nodes.{colon_node_stream, all_items}
use beryldb.Stl.Ordered.{Pairs, multimap_insert}
use beryldb.Rocks.{Rocks}
use beryldb.Query.Types.{DblCode, Page, int_key}
use beryldb.Query.{access_set, set_ok, store_of}
use beryldb.Query.Prepare.{Run}
use beryldb.Query.Replies.{one_or_zero}
use beryldb.Query.Paging.{iter_limit, is_mone, int_leb, int_ltb, to_unsigned}
use beryldb.Maps.GetAll.{PairPaging, pairs_start, count_pair, pairs_finished}
use beryldb.Keys.{plain, save_text, answer}

-- `substr(offset, limit)` of a text: an offset that is negative is a very large size_t, and so is a limit.
unfoldable pub substr : Str → ℤ → ℤ → Outcome Str
substr s (negsuc o) limit = fault out_of_range
substr s (pos o) limit =
    if ltb (length s) o
    then fault out_of_range
    else elim limit [ pos n ↦ ret (take n (drop o s)) | negsuc n ↦ ret (drop o s) ]

abbrev pub is_alnum : ℕ → Bool
is_alnum c = (leb b'0' c && leb c b'9') || (leb b'a' c && leb c b'z') || (leb b'A' c && leb c b'Z')

unfoldable pub alpha_loop : Str → Bool
alpha_loop [] = true
alpha_loop (c ∷ s) =
    let rest = alpha_loop s in if c == 0 then true else if is_alnum c then rest else false

-- `isalpha` of a text, which stops at a null character.
unfoldable pub is_alpha : Str → Bool
unfolding alpha_loop
is_alpha s = not (is_empty s) && alpha_loop s

-- The text behind `sub` at the head of the text.
unfoldable pub prefix_rest : Str → Str → Option Str
prefix_rest [] s = some s
prefix_rest (c ∷ sub) [] = none
prefix_rest (c ∷ sub) (d ∷ s) = let rest = prefix_rest sub s in if c == d then rest else none

-- `count_occur`: behind a match the search goes on at its end. `skip` counts what is left of the
-- match; an empty substring is found for ever.
unfoldable pub occurs_loop : Str → ℕ → Str → ℕ
unfolding prefix_rest
occurs_loop sub skip [] = 0
occurs_loop sub (suc skip) (c ∷ s) = occurs_loop sub skip s
occurs_loop sub zero (c ∷ s) = elim (prefix_rest sub (c ∷ s)) [
  | none ↦ occurs_loop sub 0 s
  | some rest ↦ suc (occurs_loop sub (length sub - 1) s)
]

-- The key behind a stored place, `none` where it is of another select or no plain key.
unfoldable pub plain_tokens : Str → ℕ → Str → List Str → Option Str
plain_tokens select counter key [] = some key
plain_tokens select zero key (token ∷ tokens) = plain_tokens select 1 (to_string token) tokens
plain_tokens select (suc zero) key (token ∷ tokens) =
    let rest = plain_tokens select 2 key tokens in if str_eq select token then rest else none
plain_tokens select (suc (suc zero)) key (token ∷ tokens) =
    let rest = plain_tokens select 3 key tokens in if str_eq token int_key then rest else none
plain_tokens select (suc (suc (suc n))) key (token ∷ tokens) =
    plain_tokens select (n + 4) key tokens

unfoldable pub plain_key : ℕ → Str → Option Str
unfolding plain_tokens
plain_key select rawmap =
    plain_tokens (conv_numeric select) 0 [] (all_items (colon_node_stream rawmap))

-- The pairs that SEARCH finds: the values match the mask.
unfoldable pub search_scan : Str → ℕ → List (Str × Str) → Pairs
unfolding plain_key
search_scan mask select [] = []
search_scan mask select ((rawmap, rawvalue) ∷ entries) =
    let rest = search_scan mask select entries in
    elim (glob (to_string rawvalue) mask) [
      | false ↦ rest
      | true ↦ elim (plain_key select rawmap) [
        | none ↦ rest
        | some key ↦ (key, to_string rawvalue) ∷ rest
      ]
    ]

-- A pair that is taken; a full page is attached and the result is cleared.
unfoldable pub add_pair : Str × Str → PairPaging → PairPaging
add_pair (key, value) p =
    let aux = incr32 p.aux in
    let q : PairPaging = record p { aux = aux; result = multimap_insert key value p.result } in
    let page : Page = record {
      page_subresult = incr32 p.tracker;
      page_data = [];
      page_mmap = q.result;
    } in
    if aux % iter_limit == 0
    then record q { tracker = incr32 p.tracker; pages = p.pages ++ page ∷ []; result = [] }
    else q

unfoldable pub search_loop : ℤ → ℤ → Pairs → PairPaging → PairPaging
unfolding add_pair count_pair
search_loop offset limit [] p = p
search_loop offset limit (pair ∷ l) p =
    let taken = add_pair pair p in
    let rest = search_loop offset limit l (count_pair taken) in
    let skipped = search_loop offset limit l (count_pair p) in
    if is_mone limit
    then rest
    else if int_leb offset (to_int p.total) && int_ltb (to_int p.aux) limit
    then (if taken.aux == to_unsigned limit then taken else rest)
    else skipped

-- The loop of RANDOM: `draws` gives the two numbers of each round behind the first key.
unfoldable pub random_loop : (ℕ → ℕ × ℕ) → ℕ → Str → List Str → ℕ × Str
random_loop draws counter found [] = (counter, found)
random_loop draws counter found (key ∷ keys) =
    let count = incr32 counter in
    let first = random_loop draws count key keys in
    let next = if (draws counter).0 == 0 then key else found in
    let rest = random_loop draws count next keys in
    if is_empty found then first else if (draws counter).1 == count then (count, next) else rest

unfoldable pub plain_keys : ℕ → List (Str × Str) → List Str
unfolding plain_key
plain_keys select [] = []
plain_keys select ((rawmap, rawvalue) ∷ entries) =
    let rest = plain_keys select entries in
    elim (plain_key select rawmap) [ none ↦ rest | some key ↦ key ∷ rest ]

module _ (r : Rocks) where
  -- (unsigned int)(offset + limit) > length.
  unfoldable pub get_substr : Run r
  unfolding substr plain save_text
  get_substr q w =
      let text = plain r q w in
      if ltb (length text) ((to_unsigned q.offset + to_unsigned q.limit) % u32_mod)
      then ret (access_set DblCode.invalid_range (record q { response = text }), w)
      else substr text q.offset q.limit >>= λ s. save_text r (record q { response = s }) w s

  pub get_occurs : Run r
  unfolding plain answer occurs_loop
  get_occurs q w =
      if is_empty q.value
      then fault endless
      else answer r q w (conv_numeric (occurs_loop q.value 0 (plain r q w)))

  pub alpha : Run r
  unfolding plain answer is_alpha
  alpha q w = answer r q w (one_or_zero (is_alpha (plain r q w)))

  pub search : Run r
  unfolding search_loop search_scan
  search q w =
      let found = search_scan q.key q.select_query (r.entries (store_of r q.database w)) in
      let p = search_loop q.offset q.limit found pairs_start in
      pairs_finished r q w (record p { total = p.aux })

  pub random : (ℕ → ℕ × ℕ) → Run r
  unfolding random_loop plain_keys
  random draws q w =
      let keys = plain_keys q.select_query (r.entries (store_of r q.database w)) in
      let (counter, found) = random_loop draws 0 [] keys in
      if counter == 0 && is_empty found
      then ret (access_set DblCode.not_found q, w)
      else ret (set_ok (record q { response = found }), w)
