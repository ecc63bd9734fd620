-- ===== src/Handler/Words.antt =====
-- The words in which the two maps store their pairs: the key, a slash and the value.
use beryldb.Prelude.{
  ℕ, ◌+◌, ◌<◌, ◌≡◌, refl, ap, false, [], ◌∷◌, ◌++◌, map, Str, IsNonempty, IsBytes, All, All-append,
  length, take, drop, arith, ◌==◌, some,
}
use mathlib.Core.List.{append_assoc}
use beryldb.Machine.{u32_mod, incr32}
use beryldb.Codec.{to_bin, to_string}
use beryldb.Codec.RoundTrip.{to_bin-IsDigit, to_string-to_bin}
use beryldb.Nodes.{index_of}
use beryldb.Nodes.Split.{Lacks, index_of-append}
use beryldb.Handler.Stored.{digits-Lacks}
use beryldb.Stl.Ordered.{Pairs}

-- The word of one pair.
unfoldable pub word : Str × Str → Str
word p = to_bin p.0 ++ b'/' ∷ to_bin p.1

abbrev pub IsStorable : Str × Str → Type 0
IsStorable p = IsNonempty p.0 × IsBytes p.0 × IsBytes p.1

take-append : (w s : Str) → take (length w) (w ++ s) ≡ w
take-append [] s = refl
take-append (c ∷ w) s = ap (◌∷◌ c) (take-append w s)

drop-append : (w s : Str) (c : ℕ) → drop (length w + 1) (w ++ c ∷ s) ≡ s
drop-append [] s c = refl
drop-append (d ∷ w) s c = ground (arith, drop-append w s c)

pub incr32_lem : (n : ℕ) → n + 1 < u32_mod → incr32 n ≡ n + 1
incr32_lem n h = omega arith

pub regroup : (a b r : Str) → (a ++ b'/' ∷ b ++ b':' ∷ []) ++ r ≡ (a ++ b'/' ∷ b) ++ b':' ∷ r
regroup a b r = simp append_assoc

pub map-word-Lacks : (m : Pairs) → All (Lacks b':') (map word m)
unfolding word
map-word-Lacks [] = tt
map-word-Lacks (p ∷ m) = (
  All-append (λ c. (c == b':') ≡ false) (to_bin p.0) (b'/' ∷ to_bin p.1)
      (digits-Lacks b':' (to_bin p.0) (omega arith) (to_bin-IsDigit p.0))
      (refl, digits-Lacks b':' (to_bin p.1) (omega arith) (to_bin-IsDigit p.1)),
  map-word-Lacks m,
)

append-IsNonempty : (w s : Str) (c : ℕ) → IsNonempty (w ++ c ∷ s)
append-IsNonempty [] s c = tt
append-IsNonempty (d ∷ w) s c = tt

pub map-word-IsNonempty : (m : Pairs) → All IsNonempty (map word m)
unfolding word
map-word-IsNonempty [] = tt
map-word-IsNonempty (p ∷ m) =
    (append-IsNonempty (to_bin p.0) (to_bin p.1) b'/', map-word-IsNonempty m)

-- Reading a word at its slash gives the key and the value.
pub word_slash : (p : Str × Str) → index_of b'/' (word p) ≡ some (length (to_bin p.0))
unfolding word
word_slash p =
    index_of-append b'/' (to_bin p.0) (to_bin p.1)
      (digits-Lacks b'/' (to_bin p.0) (omega arith) (to_bin-IsDigit p.0))

pub word_key : (p : Str × Str) → IsBytes p.0 → to_string (take (length (to_bin p.0)) (word p)) ≡ p.0
unfolding word
word_key p b = rw (take-append (to_bin p.0) (b'/' ∷ to_bin p.1)) (to_string-to_bin p.0 b)

pub word_value :
    (p : Str × Str) → IsBytes p.1 → to_string (drop (length (to_bin p.0) + 1) (word p)) ≡ p.1
unfolding word
word_value p b = rw (drop-append (to_bin p.0) (to_bin p.1) b'/') (to_string-to_bin p.1 b)
