-- ===== src/Nodes/Tests.antt =====
-- The theorem about the stream applied to a concrete text.
use beryldb.Prelude.{true, false, str_eq, str_cmp, refl, ◌≡◌, false, [], ◌∷◌, arith, if◌then◌else◌}
use beryldb.Nodes.{
  NodeStream, node_stream, extract_all, contains, contains_loop, items_extract, stream_finish,
  skip_separators, find_first_not_of, index_not, take_token, find, index_of, get_remaining,
}
use beryldb.Nodes.Split.{split, nonempty}
use beryldb.Nodes.Items.{extract_all-split}

extract_all-split_example :
    extract_all 9 (node_stream (b':' ∷ b'a' ∷ b':' ∷ b':' ∷ b'b' ∷ []) b':' false) ≡ (
      if false
      then split b':' (b':' ∷ b'a' ∷ b':' ∷ b':' ∷ b'b' ∷ [])
      else nonempty (split b':' (b':' ∷ b'a' ∷ b':' ∷ b':' ∷ b'b' ∷ [])))
extract_all-split_example =
    extract_all-split 9 (b':' ∷ b'a' ∷ b':' ∷ b':' ∷ b'b' ∷ []) b':' false (omega arith)

abbrev a_b_stream : NodeStream
a_b_stream = node_stream (b'a' ∷ b':' ∷ b'b' ∷ []) b':' false

a_b_stream-contains :
    (contains a_b_stream (b'b' ∷ []) ≡ true) × (contains a_b_stream (b'c' ∷ []) ≡ false)
unfolding contains contains_loop node_stream items_extract stream_finish skip_separators
    find_first_not_of index_not take_token find index_of str_eq str_cmp
a_b_stream-contains = (refl, refl)

a_b_stream-remaining : get_remaining (items_extract a_b_stream).1 ≡ b'b' ∷ []
unfolding get_remaining node_stream items_extract stream_finish skip_separators find_first_not_of
    index_not take_token find index_of
a_b_stream-remaining = refl
