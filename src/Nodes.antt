-- ===== src/Nodes.antt =====
-- include/nodes.h and src/nodes.cpp: `engine::node_stream`, which cuts a text at a separator.
-- std::string::npos is `none`.
pub mod Split
pub mod Items
pub mod Tests
use beryldb.Prelude.{
  ℕ, zero, suc, ◌+◌, ◌-◌, Bool, true, false, Option, none, some, List, [], ◌∷◌, Str, length, take,
  drop, ltb, str_eq, ◌==◌, if◌then◌else◌,
}
use mathlib.Core.Option

pub record NodeStream : Type 0 where
  pub tokens : Str
  pub sep : ℕ
  pub pos : ℕ
  pub allow_empty : Bool

pub node_stream : Str → ℕ → Bool → NodeStream
node_stream source separator allowempty = record {
  tokens = source;
  sep = separator;
  pos = 0;
  allow_empty = allowempty;
}

abbrev pub colon_node_stream : Str → NodeStream
colon_node_stream source = node_stream source b':' false

-- The first position of `c`, and of another character.
unfoldable pub index_of : ℕ → Str → Option ℕ
index_of c [] = none
index_of c (d ∷ s) = let rest = Option.map suc (index_of c s) in if d == c then some 0 else rest

pub index_not : ℕ → Str → Option ℕ
index_not c [] = none
index_not c (d ∷ s) = let rest = Option.map suc (index_not c s) in if d == c then rest else some 0

-- std::string::find and find_first_not_of of a character, from a position.
pub find : Str → ℕ → ℕ → Option ℕ
find s c pos = Option.map (λ i. pos + i) (index_of c (drop pos s))

pub find_first_not_of : Str → ℕ → ℕ → Option ℕ
find_first_not_of s c pos = Option.map (λ i. pos + i) (index_not c (drop pos s))

pub stream_finish : NodeStream → Bool
stream_finish st = ltb (length st.tokens) st.pos

abbrev pub or_length : Option ℕ → Str → ℕ
or_length none s = length s
or_length (some p) s = p

pub take_token : NodeStream → Option Str × NodeStream
take_token st =
    let p = or_length (find st.tokens st.sep st.pos) st.tokens in
    (some (take (p - st.pos) (drop st.pos st.tokens)), record st { pos = p + 1 })

pub skip_separators : NodeStream → Option ℕ → Option Str × NodeStream
skip_separators st none = (none, record st { pos = length st.tokens + 1 })
skip_separators st (some p) = take_token (record st { pos = p })

-- The token, or `none` for the result false, and the stream after the call.
pub items_extract : NodeStream → Option Str × NodeStream
items_extract st =
    if stream_finish st
    then (none, st)
    else if st.allow_empty
    then take_token st
    else skip_separators st (find_first_not_of st.tokens st.sep st.pos)

pub get_remaining : NodeStream → Str
get_remaining st = if stream_finish st then [] else drop st.pos st.tokens

-- while (stream.items_extract(token)) ...: the tokens that the body sees, in order.
pub extract_all : ℕ → NodeStream → List Str
extract_all zero st = []
extract_all (suc fuel) st =
    let (token, st') = items_extract st in
    elim token [ none ↦ [] | some t ↦ t ∷ extract_all fuel st' ]

-- A round moves the position on, so the text's length and two bound the rounds.
pub all_items : NodeStream → List Str
all_items st = extract_all (length st.tokens + 2) st

contains_loop : ℕ → Str → NodeStream → Bool
contains_loop zero value st = false
contains_loop (suc fuel) value st =
    let (token, st') = items_extract st in
    elim token [
      | none ↦ false
      | some t ↦ elim (str_eq value t) [ true ↦ true | false ↦ contains_loop fuel value st' ]
    ]

pub contains : NodeStream → Str → Bool
contains st value = contains_loop (length st.tokens + 2) value st
