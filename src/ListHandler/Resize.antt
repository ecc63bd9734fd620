-- ===== src/ListHandler/Resize.antt =====
-- `Resize` and the stored text: the empty elements that a greater size appends are not stored.
use beryldb.Prelude.{
  ℕ, zero, suc, ◌-◌, ◌<◌, ◌≡◌, refl, ap, ◌∙◌, List, [], ◌∷◌, ◌++◌, map, Str, IsNonempty, IsBytes,
  All, length, length-append, length-replicate, arith, take, replicate,
}
use Prim.Native.Nat.{min}
use mathlib.Core.Path.{ap₂}
use mathlib.Core.List.{map-append, append-nil}
use beryldb.Machine.{u32_mod}
use beryldb.Codec.{to_bin}
use beryldb.Codec.RoundTrip.{to_bin-nil}
use beryldb.Nodes.Split.{nonempty}
use beryldb.Handler.Stored.{nonempty-map-to_bin, decode-terminated}
use beryldb.Stl
use beryldb.Stl.Elements.{All-take}
use beryldb.ListHandler
use beryldb.ListHandler.{ListHandler}
use beryldb.ListHandler.Persist.{IsValid, as_string-terminated, create-decode}

nonempty-append : (xs ys : List Str) → nonempty (xs ++ ys) ≡ nonempty xs ++ nonempty ys
unfolding nonempty
nonempty-append [] ys = refl
nonempty-append (x ∷ xs) ys = ground (arith, nonempty-append xs ys)

nonempty-replicate : (n : ℕ) → nonempty (replicate n []) ≡ []
unfolding nonempty
nonempty-replicate zero = refl
nonempty-replicate (suc n) = nonempty-replicate n

map-replicate : (n : ℕ) → map to_bin (replicate n []) ≡ replicate n []
map-replicate zero = refl
map-replicate (suc n) = ap₂ ◌∷◌ to_bin-nil (map-replicate n)

stored_resize :
    (n : ℕ) (l : List Str)
    → All IsNonempty l
    → nonempty (map to_bin (Stl.resize n l)) ≡ map to_bin (take n l)
unfolding Stl.resize
stored_resize n l h =
    ap nonempty (map-append to_bin (take n l) _)
    ∙ nonempty-append (map to_bin (take n l)) _
    ∙ ap₂ ◌++◌ (nonempty-map-to_bin (take n l) (All-take IsNonempty n l h))
        (ap nonempty (map-replicate (n - length l)) ∙ nonempty-replicate (n - length l))
    ∙ append-nil (map to_bin (take n l))

length-take : (n : ℕ) (l : List Str) → length (take n l) ≡ min n (length l)
length-take zero l = omega arith
length-take (suc n) [] = omega arith
length-take (suc n) (x ∷ l) = omega (arith, length-take n l)

length-resize : (n : ℕ) (l : List Str) → length (Stl.resize n l) ≡ n
unfolding Stl.resize
length-resize n l = omega (
  arith,
  length-append (take n l) (replicate (n - length l) []),
  length-replicate {A = Str} (n - length l) [],
  length-take n l,
)

-- The stored text of a valid list that was resized, to a size below 2^32, loads to the elements below
-- the size: the empty ones that a greater size appends are lost.
pub create-resize :
    (h : ListHandler) (n : ℕ)
    → IsValid h
    → n < u32_mod
    → (ListHandler.create (ListHandler.as_string (ListHandler.resize h n))).mhandler
      ≡ take n h.mhandler
unfolding ListHandler.resize
create-resize h n v w =
    rw
      (as_string-terminated (ListHandler.resize h n)
        (unfold ListHandler.resize in omega (arith, length-resize n h.mhandler)))
      (create-decode _
        ∙ decode-terminated (Stl.resize n h.mhandler) (take n h.mhandler)
            (stored_resize n h.mhandler v.filled) (All-take IsNonempty n h.mhandler v.filled)
            (All-take IsBytes n h.mhandler v.bytes))

pub count-resize :
    (h : ListHandler) (n : ℕ) → n < u32_mod → (ListHandler.count (ListHandler.resize h n)).1 ≡ n
unfolding ListHandler.resize ListHandler.count
count-resize h n w = omega (arith, length-resize n h.mhandler)
