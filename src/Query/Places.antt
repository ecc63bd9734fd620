-- ===== src/Query/Places.antt =====
-- The places of src/brldb/query.cpp: a key, its select and its type are read back from the place.
use beryldb.Prelude.{ℕ, ◌≡◌, refl, sym, ap, ◌∙◌, [], ◌∷◌, ◌++◌, Str, IsBytes, drop, arith}
use beryldb.Codec.{to_bin, to_string}
use beryldb.Codec.RoundTrip.{to_string-to_bin, to_bin-IsDigit}
use beryldb.Convert.{conv_numeric}
use beryldb.Convert.Laws.{conv_numeric-injective, conv_numeric-Lacks}
use beryldb.Handler.Stored.{digits-Lacks}
use beryldb.Nodes.Split.{Lacks}
use beryldb.Query.{dest_of}

-- Two texts before the first colon and behind it.
colon-injective :
    (u v s t : Str)
    → Lacks b':' u
    → Lacks b':' v
    → u ++ b':' ∷ s ≡ v ++ b':' ∷ t
    → (u ≡ v) × (s ≡ t)
colon-injective [] [] s t hu hv e = (refl, ap (drop 1) e)
colon-injective [] (d ∷ v) s t hu hv e = ground arith
colon-injective (c ∷ u) [] s t hu hv e = ground arith
colon-injective (c ∷ u) (d ∷ v) s t hu hv e =
    let (words, texts) = colon-injective u v s t hu.1 hv.1 (ap (drop 1) e) in
    (ground (arith, words), texts)

-- Two keys of bytes have the same place under the same database only if they are the same key of the
-- same select with the same type.
pub dest_of-injective :
    (key key' : Str) (select select' : ℕ) (type type' : Str)
    → IsBytes key
    → IsBytes key'
    → dest_of key select type ≡ dest_of key' select' type'
    → (key ≡ key') × (select ≡ select') × (type ≡ type')
unfolding dest_of
dest_of-injective key key' select select' type type' b b' e =
    let (bins, rest) =
      colon-injective (to_bin key) (to_bin key') _ _ (bin-Lacks key) (bin-Lacks key') e in
    let (nums, types) =
      colon-injective (conv_numeric select) (conv_numeric select') type type'
        (conv_numeric-Lacks select) (conv_numeric-Lacks select') rest in
    (
      sym (to_string-to_bin key b) ∙ ap to_string bins ∙ to_string-to_bin key' b',
      conv_numeric-injective select select' nums,
      types,
    )
  where
    bin-Lacks : (s : Str) → Lacks b':' (to_bin s)
    bin-Lacks s = digits-Lacks b':' (to_bin s) (omega arith) (to_bin-IsDigit s)
