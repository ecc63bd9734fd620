-- ===== src/Handler/Stored.antt =====
-- The text that a handler stores, and the items that the stream finds in it again.
use beryldb.Prelude.{
  ℕ, suc, ◌⊎◌, ◌<◌, ◌≤◌, ◌≡◌, refl, ap, ◌∙◌, List, [], ◌∷◌, map, Str, IsNonempty, IsBytes, All,
  length, arith,
}
use beryldb.Machine.{u32_mod}
use beryldb.Codec.{to_bin, to_string}
use beryldb.Codec.RoundTrip.{
  IsDigit, to_bin-IsDigit, to_bin-IsNonempty, to_string-to_bin, to_string-IsBytes,
}
use beryldb.Nodes.{colon_node_stream, all_items}
use beryldb.Nodes.Split.{
  Lacks, nonempty, terminated, nonempty-split-terminated, nonempty_lem, length-split-le,
}
use beryldb.Nodes.Items.{all_items-split}

-- Digits are no separators.
pub digits-Lacks : (sep : ℕ) (s : Str) → sep < b'0' ⊎ b'1' < sep → All IsDigit s → Lacks sep s
digits-Lacks sep [] h d = tt
digits-Lacks sep (c ∷ s) h d = (ground arith, digits-Lacks sep s h d.1)

-- The loop over a stored text sees the words that were stored, but for the empty ones.
pub all_items-terminated :
    (ws : List Str)
    → All (Lacks b':') ws
    → all_items (colon_node_stream (terminated b':' ws)) ≡ nonempty ws
all_items-terminated ws h =
    all_items-split (terminated b':' ws) b':' ∙ nonempty-split-terminated b':' ws h

map-to_bin-Lacks : (l : List Str) → All (Lacks b':') (map to_bin l)
map-to_bin-Lacks [] = tt
map-to_bin-Lacks (x ∷ l) =
    (digits-Lacks b':' (to_bin x) (omega arith) (to_bin-IsDigit x), map-to_bin-Lacks l)

map-to_bin-IsNonempty : (l : List Str) → All IsNonempty l → All IsNonempty (map to_bin l)
map-to_bin-IsNonempty [] h = tt
map-to_bin-IsNonempty (x ∷ l) h = (to_bin-IsNonempty x h.0, map-to_bin-IsNonempty l h.1)

pub all_items-nonempty :
    (l : List Str)
    → all_items (colon_node_stream (terminated b':' (map to_bin l))) ≡ nonempty (map to_bin l)
all_items-nonempty l = all_items-terminated (map to_bin l) (map-to_bin-Lacks l)

pub nonempty-map-to_bin : (l : List Str) → All IsNonempty l → nonempty (map to_bin l) ≡ map to_bin l
nonempty-map-to_bin l h = nonempty_lem (map to_bin l) (map-to_bin-IsNonempty l h)

pub all_items-to_bin :
    (l : List Str)
    → All IsNonempty l
    → all_items (colon_node_stream (terminated b':' (map to_bin l))) ≡ map to_bin l
all_items-to_bin l h = all_items-nonempty l ∙ nonempty-map-to_bin l h

-- What the loop `while (stream.items_extract(mask)) New->Add(to_string(mask))` adds, where `Add` refuses
-- an empty element.
unfoldable pub decode : Str → List Str
decode load = nonempty (map to_string (all_items (colon_node_stream load)))

nonempty-append_nonempty :
    (x : Str) (xs : List Str) → IsNonempty x → nonempty (x ∷ xs) ≡ x ∷ nonempty xs
unfolding nonempty
nonempty-append_nonempty [] xs h = absurd h
nonempty-append_nonempty (c ∷ x) xs h = refl

map-to_string-to_bin :
    (l : List Str) → All IsNonempty l → All IsBytes l → nonempty (map to_string (map to_bin l)) ≡ l
map-to_string-to_bin [] n b = unfold nonempty in refl
map-to_string-to_bin (x ∷ l) n b =
    rw (to_string-to_bin x b.0)
      (nonempty-append_nonempty x _ n.0 ∙ ap (◌∷◌ x) (map-to_string-to_bin l n.1 b.1))

-- What is decoded from a stored text whose words, but for the empty ones, are those of a clean list.
pub decode-terminated :
    (ws l : List Str)
    → nonempty (map to_bin ws) ≡ map to_bin l
    → All IsNonempty l
    → All IsBytes l
    → decode (terminated b':' (map to_bin ws)) ≡ l
unfolding decode
decode-terminated ws l e n b = rw (all_items-nonempty ws, e) (map-to_string-to_bin l n b)

-- A list that can be stored: no empty element, bytes only, and a length that fits the counters.
pub record IsClean (l : List Str) : Type 0 where
  pub filled : All IsNonempty l
  pub bytes : All IsBytes l
  pub fits : length l < u32_mod

pub decode-stored : (l : List Str) → IsClean l → decode (terminated b':' (map to_bin l)) ≡ l
decode-stored l v = decode-terminated l l (nonempty-map-to_bin l v.filled) v.filled v.bytes

nonempty-IsNonempty : (ws : List Str) → All IsNonempty (nonempty ws)
unfolding nonempty
nonempty-IsNonempty [] = tt
nonempty-IsNonempty ([] ∷ ws) = nonempty-IsNonempty ws
nonempty-IsNonempty ((c ∷ w) ∷ ws) = (tt, nonempty-IsNonempty ws)

nonempty-to_string-IsBytes : (ws : List Str) → All IsBytes (nonempty (map to_string ws))
unfolding nonempty
nonempty-to_string-IsBytes [] = tt
nonempty-to_string-IsBytes (w ∷ ws) =
    ground (arith, to_string-IsBytes w, nonempty-to_string-IsBytes ws)

length-nonempty-le : (ws : List Str) → length (nonempty ws) ≤ length ws
unfolding nonempty
length-nonempty-le [] = omega arith
length-nonempty-le ([] ∷ ws) = omega (arith, length-nonempty-le ws)
length-nonempty-le ((c ∷ w) ∷ ws) = omega (arith, length-nonempty-le ws)

length-map : (ws : List Str) → length (map to_string ws) ≡ length ws
length-map [] = refl
length-map (w ∷ ws) = ap suc (length-map ws)

pub length-decode-le : (load : Str) → length (decode load) ≤ length load
unfolding decode
length-decode-le load =
    let items = all_items (colon_node_stream load) in
    omega (
      arith,
      length-nonempty-le (map to_string items),
      length-map items,
      ap length (all_items-split load b':'),
      length-split-le b':' load,
    )

-- Whatever text below 4 GB is loaded, what is decoded from it can be stored.
pub decode-IsClean : (load : Str) → length load < u32_mod → IsClean (decode load)
unfolding decode
decode-IsClean load w =
    let items = all_items (colon_node_stream load) in
    record {
      filled = nonempty-IsNonempty (map to_string items);
      bytes = nonempty-to_string-IsBytes items;
      fits = omega (arith, length-decode-le load);
    }
