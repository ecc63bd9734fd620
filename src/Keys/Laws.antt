-- ===== src/Keys/Laws.antt =====
-- The keys that the iterator loops list: a stored place shows its key under its own select and type only.
use beryldb.Prelude.{
  ℕ, ◌≡◌, ◌∙◌, ◌&&◌, none, some, [], ◌∷◌, ◌++◌, Str, IsBytes, IsNonempty, str_eq, str_eq_iff, arith,
  ◌==◌, if◌then◌else◌,
}
use beryldb.Codec.{to_bin}
use beryldb.Codec.RoundTrip.{to_string-to_bin, to_bin-IsDigit, to_bin-IsNonempty}
use beryldb.Convert.{conv_numeric}
use beryldb.Convert.Laws.{conv_numeric-injective, conv_numeric-Lacks, conv_numeric-IsNonempty}
use beryldb.Handler.Stored.{digits-Lacks}
use beryldb.Match.{glob}
use beryldb.Nodes.{colon_node_stream, all_items}
use beryldb.Nodes.Split.{Lacks, split-append, split-Lacks, nonempty_lem}
use beryldb.Nodes.Items.{all_items-split}
use beryldb.Query.{dest_of}
use beryldb.Keys.Scan.{token_loop, listed}

items-dest_of :
    (key : Str) (select : ℕ) (type : Str)
    → IsNonempty key
    → Lacks b':' type
    → IsNonempty type
    → all_items (colon_node_stream (dest_of key select type))
      ≡ to_bin key ∷ conv_numeric select ∷ type ∷ []
unfolding dest_of
items-dest_of key select type filled lacks named =
    all_items-split _ b':'
    ∙ rw
        (
          split-append b':' (to_bin key) (conv_numeric select ++ b':' ∷ type)
              (digits-Lacks b':' (to_bin key) (omega arith) (to_bin-IsDigit key)),
          split-append b':' (conv_numeric select) type (conv_numeric-Lacks select),
          split-Lacks b':' type lacks,
        )
        (nonempty_lem _
          (to_bin-IsNonempty key filled, (conv_numeric-IsNonempty select, (named, tt))))

-- The place of a key of bytes that is not empty shows the key to a listing just when the key matches the mask, the select is
-- the same and the type is the one that is listed.
pub listed-dest_of :
    (mask key : Str) (select select' : ℕ) (type type' : Str)
    → IsBytes key
    → IsNonempty key
    → Lacks b':' type
    → IsNonempty type
    → listed mask select' type' (dest_of key select type)
      ≡ (if glob key mask && select' == select && str_eq type type' then some key else none)
unfolding listed token_loop
listed-dest_of mask key select select' type type' bytes filled lacks named =
    rw (items-dest_of key select type filled lacks named, to_string-to_bin key bytes)
      (ground (
        arith,
        str_eq_iff (conv_numeric select') (conv_numeric select),
        conv_numeric-injective select' select,
      ))
