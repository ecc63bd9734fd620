-- ===== src/MultiMapHandler/Persist.antt =====
-- The stored text of a multimap and the multimap that `Create` reads from it.
use beryldb.Prelude.{
  ℕ, ◌+◌, ◌<◌, ◌≤◌, ◌≡◌, ◌≢◌, refl, ap, ◌∙◌, false, [], ◌∷◌, ◌++◌, map, Str, IsNonempty, All,
  All-append, length, arith, Ordering, str_cmp, ◌==◌,
}
use mathlib.Core.List.{append_assoc, append-nil}
use beryldb.Machine.{u32_mod, to_u32, incr32}
use beryldb.Codec.{to_bin, to_string}
use beryldb.Nodes.{index_of}
use beryldb.Nodes.Split.{terminated, nonempty_lem}
use beryldb.Handler.Stored.{all_items-terminated}
use beryldb.Handler.Words.{
  word, IsStorable, incr32_lem, regroup, map-word-Lacks, map-word-IsNonempty, word_slash, word_key,
  word_value,
}
use beryldb.Stl.Ordered.{Pairs}
use beryldb.Stl.OrderedLaws.{IsWeaklyAscending, NotBelow, multimap_insert_end, not_lt_of_not_gt}
use beryldb.MultiMapHandler.{
  MultiMapHandler, new, add, add_each, create, as_string, as_string_loop, path_of, file_of,
}

-- The multimaps that the code builds: keys in order, none of them empty, bytes only, and a size that fits
-- the counters.
pub record IsValid (m : Pairs) : Type 0 where
  pub ascending : IsWeaklyAscending m
  pub storable : All IsStorable m
  pub fits : length m < u32_mod

add_word : MultiMapHandler → Str → MultiMapHandler
add_word h mask =
    add h (to_string (path_of mask (index_of b'/' mask)))
      (to_string (file_of mask (index_of b'/' mask)))

add_word_lem :
    (h : MultiMapHandler) (p : Str × Str) → IsStorable p → add_word h (word p) ≡ add h p.0 p.1
unfolding add_word path_of file_of
add_word_lem h p v = ground (arith, word_slash p, word_key p v.1, word_value p v.2)

abbrev NoneAbove : Str → Pairs → Type 0
NoneAbove key = All (λ (p : Str × Str). str_cmp key p.0 ≢ Ordering.lt)

-- A pair whose key no other is above is put at the end.
add_end :
    (h : MultiMapHandler) (key value : Str)
    → IsNonempty key
    → NoneAbove key h.mhandler
    → (add h key value).mhandler ≡ h.mhandler ++ (key, value) ∷ []
unfolding add
add_end h [] value n b = absurd n
add_end h (c ∷ key) value n b = ground (arith, multimap_insert_end (c ∷ key) value h.mhandler b)

-- No key of the first map is above a key of the second.
abbrev Before : Pairs → Pairs → Type 0
Before done = All (λ (p : Str × Str). NoneAbove p.0 done)

Before-snoc :
    (done : Pairs) (p : Str × Str) (m : Pairs)
    → Before done m
    → NotBelow p.0 m
    → Before (done ++ p ∷ []) m
Before-snoc done p [] b a = tt
Before-snoc done p (q ∷ m) b a = (
  All-append (λ (r : Str × Str). str_cmp q.0 r.0 ≢ Ordering.lt) done (p ∷ []) b.0
      (not_lt_of_not_gt p.0 q.0 a.0, tt),
  Before-snoc done p m b.1 a.1,
)

add_each-word :
    (h : MultiMapHandler) (m : Pairs)
    → IsWeaklyAscending m
    → All IsStorable m
    → Before h.mhandler m
    → (add_each h (map word m)).mhandler ≡ h.mhandler ++ m
unfolding add_each add_word
add_each-word h [] a v b = rw append-nil
add_each-word h ((k, x) ∷ m) a v b =
    let next : (add h k x).mhandler ≡ h.mhandler ++ (k, x) ∷ [] = add_end h k x v.0.0 b.0 in
    let before : Before (add h k x).mhandler m =
      rw next (Before-snoc h.mhandler (k, x) m b.1 a.0) in
    ap (λ g. (add_each g (map word m)).mhandler) (add_word_lem h (k, x) v.0)
    ∙ add_each-word (add h k x) m a.1 v.1 before
    ∙ rw next (append_assoc h.mhandler ((k, x) ∷ []) m)

as_string_loop-terminated :
    (size counter : ℕ) (m : Pairs)
    → counter + length m ≤ size
    → size < u32_mod
    → as_string_loop size counter m ≡ terminated b':' (map word m)
unfolding as_string_loop terminated word
as_string_loop-terminated size counter [] h w = refl
as_string_loop-terminated size counter ((k, v) ∷ m) h w =
    let more : (counter == size) ≡ false = ground arith in
    let next : incr32 counter ≡ counter + 1 = incr32_lem counter (omega arith) in
    rw (more, next, as_string_loop-terminated size (counter + 1) m (omega arith) w)
      (regroup (to_bin k) (to_bin v) (terminated b':' (map word m)))

none-Before : (m : Pairs) → Before [] m
none-Before [] = tt
none-Before (p ∷ m) = (tt, none-Before m)

-- A multimap whose keys are in order and not empty, all of bytes, with fewer than 2^32 pairs, comes back from
-- its stored text pair by pair.
pub create-as_string_multimap :
    (h : MultiMapHandler) → IsValid h.mhandler → (create (as_string h)).mhandler ≡ h.mhandler
unfolding create as_string new
create-as_string_multimap h v =
    rw
      (
        as_string_loop-terminated (to_u32 (length h.mhandler)) 0 h.mhandler (omega (arith, v.fits))
            (omega arith),
        all_items-terminated (map word h.mhandler) (map-word-Lacks h.mhandler),
        nonempty_lem (map word h.mhandler) (map-word-IsNonempty h.mhandler),
      )
      (add_each-word new h.mhandler v.ascending v.storable (none-Before h.mhandler))
