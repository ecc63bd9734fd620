-- ===== src/Nodes/Items.antt =====
-- The stream against plain cutting.
use beryldb.Prelude.{
  ℕ, zero, suc, ◌+◌, ◌-◌, ◌≤◌, ◌<◌, ◌⊎◌, ◌≡◌, refl, ap, ◌∙◌, Bool, true, false, none, some, List,
  [], ◌∷◌, Str, length, take, drop, length-drop, drop-drop, arith, if◌then◌else◌, Bool-cases, inl,
  inr, Option-cases,
}
use beryldb.Nodes.{
  NodeStream, node_stream, index_of, index_not, find, find_first_not_of, stream_finish, take_token,
  skip_separators, items_extract, extract_all, all_items,
}
use beryldb.Nodes.Split.{
  split, nonempty, split-none, split-some, nonempty-split-none, nonempty-split-some, head_nonempty,
}

-- The part of the text that is still to be read.
abbrev rest_of : NodeStream → Str
rest_of st = drop st.pos st.tokens

-- What the loop is to see from here.
pieces : NodeStream → List Str
pieces st =
    if stream_finish st
    then []
    else if st.allow_empty
    then split st.sep (rest_of st)
    else nonempty (split st.sep (rest_of st))

take-length : (s : Str) (n : ℕ) → length s ≤ n → take n s ≡ s
take-length [] zero h = refl
take-length [] (suc n) h = refl
take-length (c ∷ s) zero h = absurd (omega arith)
take-length (c ∷ s) (suc n) h = ap (◌∷◌ c) (take-length s n (omega arith))

index_of-lt : (c i : ℕ) (s : Str) → index_of c s ≡ some i → i < length s
unfolding index_of
index_of-lt c i [] h = cc
index_of-lt c zero (d ∷ s) h = omega arith
index_of-lt c (suc i) (d ∷ s) h = ground (arith, index_of-lt c i s)

index_not-lt : (c i : ℕ) (s : Str) → index_not c s ≡ some i → i < length s
unfolding index_not
index_not-lt c i [] h = cc
index_not-lt c zero (d ∷ s) h = omega arith
index_not-lt c (suc i) (d ∷ s) h = ground (arith, index_not-lt c i s)

-- The token that `take_token` returns, and the rest after it, are the head and the tail of the split.
record Takes (st : NodeStream) : Type 0 where
  token : Str
  after : NodeStream
  taken : take_token st ≡ (some token, after)
  text : after.tokens ≡ st.tokens
  separator : after.sep ≡ st.sep
  empties : after.allow_empty ≡ st.allow_empty
  moved : st.pos < after.pos
  bounded : after.pos ≤ length st.tokens + 1
  cut :
      split st.sep (rest_of st)
      ≡ token ∷ (if stream_finish after then [] else split st.sep (rest_of after))

drop_after : (st : NodeStream) (i : ℕ) → drop (st.pos + i + 1) st.tokens ≡ drop (suc i) (rest_of st)
drop_after st i =
    let e : st.pos + i + 1 ≡ st.pos + suc i = omega arith in
    rw (e, drop-drop st.pos (suc i) st.tokens)

take_token-Takes : (st : NodeStream) → st.pos ≤ length st.tokens → Takes st
unfolding take_token find stream_finish
take_token-Takes st h = elim (Option-cases (index_of st.sep (rest_of st))) [
  | inl e ↦ record {
    token = rest_of st;
    after = record st { pos = length st.tokens + 1 };
    taken =
        ground (
          arith,
          take-length (rest_of st) (length st.tokens - st.pos),
          length-drop st.pos st.tokens,
        );
    text = refl;
    separator = refl;
    empties = refl;
    moved = omega arith;
    bounded = omega arith;
    cut = ground (arith, split-none st.sep (rest_of st));
  }
  | inr (i, e) ↦ record {
    token = take i (rest_of st);
    after = record st { pos = st.pos + i + 1 };
    taken = ground arith;
    text = refl;
    separator = refl;
    empties = refl;
    moved = omega arith;
    bounded = ground (arith, index_of-lt st.sep i (rest_of st), length-drop st.pos st.tokens);
    cut = ground (
      arith,
      index_of-lt st.sep i (rest_of st),
      length-drop st.pos st.tokens,
      split-some st.sep i (rest_of st),
      drop_after st i,
    );
  }
]

-- One call of `items_extract` against `pieces`: false at the end, and else the first piece.
record Yield (st : NodeStream) : Type 0 where
  token : Str
  after : NodeStream
  result : items_extract st ≡ (some token, after)
  text : after.tokens ≡ st.tokens
  moved : st.pos < after.pos
  cut : pieces st ≡ token ∷ pieces after

abbrev Steps : NodeStream → Type 0
Steps st = (((items_extract st).0 ≡ none) × (pieces st ≡ [])) ⊎ Yield st

keeps_empties :
    (st : NodeStream) → st.allow_empty ≡ true → stream_finish st ≡ false → Takes st → Steps st
unfolding items_extract pieces
keeps_empties st h k t = inr (record {
  token = t.token;
  after = t.after;
  result = ground (arith, t.taken);
  text = t.text;
  moved = t.moved;
  cut = ground (arith, t.cut, t.empties, t.separator);
})

skips_empties :
    (st : NodeStream) (j : ℕ)
    → st.allow_empty ≡ false
    → stream_finish st ≡ false
    → index_not st.sep (rest_of st) ≡ some j
    → Takes (record st { pos = st.pos + j })
    → Steps st
unfolding items_extract pieces find_first_not_of skip_separators nonempty
skips_empties st j h k e t = inr (record {
  token = t.token;
  after = t.after;
  result = ground (arith, t.taken);
  text = t.text;
  moved = let m : st.pos + j < t.after.pos = t.moved in omega arith;
  cut = ground (
    arith,
    t.cut,
    t.empties,
    t.separator,
    drop-drop st.pos j st.tokens,
    nonempty-split-some st.sep j (rest_of st),
    head_nonempty st.sep j (rest_of st) t.token
        (if stream_finish t.after then [] else split st.sep (rest_of t.after)),
  );
})

at_end :
    (st : NodeStream)
    → st.allow_empty ≡ false
    → stream_finish st ≡ false
    → index_not st.sep (rest_of st) ≡ none
    → Steps st
unfolding items_extract pieces find_first_not_of skip_separators
at_end st h k e = inl (ground arith, ground (arith, nonempty-split-none st.sep (rest_of st)))

finish-false : (st : NodeStream) → stream_finish st ≡ false → st.pos ≤ length st.tokens
unfolding stream_finish
finish-false st h = ground arith

finish_true : (st : NodeStream) → stream_finish st ≡ true → Steps st
unfolding items_extract pieces
finish_true st h = inl (ground arith, ground arith)

steps : (st : NodeStream) → Steps st
steps st = elim (Bool-cases (stream_finish st)) [
  | inl done ↦ finish_true st done
  | inr more ↦ elim (Bool-cases st.allow_empty) [
    | inl empties ↦ keeps_empties st empties more (take_token-Takes st (finish-false st more))
    | inr no_empties ↦ elim (Option-cases (index_not st.sep (rest_of st))) [
      | inl e ↦ at_end st no_empties more e
      | inr (j, e) ↦ skips_empties st j no_empties more e (
          take_token-Takes (record st { pos = st.pos + j })
            (omega (arith, index_not-lt st.sep j (rest_of st) e, length-drop st.pos st.tokens)))
    ]
  ]
]

pieces_end : (st : NodeStream) → length st.tokens + 2 ≤ st.pos → [] ≡ pieces st
unfolding pieces stream_finish
pieces_end st h = ground arith

extract_all-pieces :
    (fuel : ℕ) (st : NodeStream)
    → length st.tokens + 2 ≤ fuel + st.pos
    → extract_all fuel st ≡ pieces st
unfolding extract_all
extract_all-pieces zero st h = pieces_end st (omega arith)
extract_all-pieces (suc fuel) st h = elim (steps st) [
  | inl (done, e) ↦ ground arith
  | inr y ↦
      let len : length y.after.tokens ≡ length st.tokens = ap length y.text in
      let rest = extract_all-pieces fuel y.after (omega (arith, y.moved)) in
      ground (arith, y.result, y.cut, rest)
]

-- The loop over a stream, once it has rounds enough, sees the pieces of the text between the
-- separators, in order: all of them where empty ones are allowed, and else those that are not empty.
pub extract_all-split :
    (fuel : ℕ) (source : Str) (separator : ℕ) (allowempty : Bool)
    → length source + 2 ≤ fuel
    → extract_all fuel (node_stream source separator allowempty)
      ≡ (if allowempty then split separator source else nonempty (split separator source))
unfolding node_stream pieces stream_finish
extract_all-split fuel source separator allowempty h =
    extract_all-pieces fuel (node_stream source separator allowempty) (omega arith) ∙ ground arith

pub all_items-split :
    (source : Str) (separator : ℕ)
    → all_items (node_stream source separator false) ≡ nonempty (split separator source)
unfolding all_items
all_items-split source separator =
    extract_all-split _ source separator false (unfold node_stream in omega arith)
