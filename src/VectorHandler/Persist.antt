-- ===== src/VectorHandler/Persist.antt =====
-- The stored text of a vector and the vector that `Create` reads from it.
use beryldb.Prelude.{◌<◌, ◌≡◌, refl, ap, ◌∙◌, List, [], ◌∷◌, ◌++◌, map, Str, length, arith}
use mathlib.Core.List.{append_assoc, append-nil}
use beryldb.Machine.{u32_mod, to_u32}
use beryldb.Codec.{to_bin, to_string}
use beryldb.Nodes.{colon_node_stream, all_items}
use beryldb.Nodes.Split.{terminated, nonempty}
use beryldb.Handler.LoopLaws.{as_string_loop-terminated}
use beryldb.Handler.Stored.{decode, IsClean, decode-stored, decode-IsClean}
use beryldb.VectorHandler.{VectorHandler, new, add, add_each, create, as_string}

abbrev pub IsValid : VectorHandler → Type 0
IsValid h = IsClean h.mhandler

add_lem : (h : VectorHandler) (key : Str) → (add h key).mhandler ≡ h.mhandler ++ nonempty (key ∷ [])
unfolding add nonempty
add_lem h [] = rw append-nil
add_lem h (c ∷ key) = refl

nonempty-cons : (w : Str) (ws : List Str) → nonempty (w ∷ []) ++ nonempty ws ≡ nonempty (w ∷ ws)
unfolding nonempty
nonempty-cons [] ws = refl
nonempty-cons (c ∷ w) ws = refl

add_each_lem :
    (h : VectorHandler) (masks : List Str)
    → (add_each h masks).mhandler ≡ h.mhandler ++ nonempty (map to_string masks)
unfolding add_each
add_each_lem h [] = unfold nonempty in rw append-nil
add_each_lem h (mask ∷ masks) =
    add_each_lem (add h (to_string mask)) masks
    ∙ rw (add_lem h (to_string mask), append_assoc h.mhandler _ (nonempty (map to_string masks)))
        (ap (◌++◌ h.mhandler) (nonempty-cons (to_string mask) (map to_string masks)))

pub create-decode : (load : Str) → (create load).mhandler ≡ decode load
unfolding create new decode
create-decode load = add_each_lem new (all_items (colon_node_stream load))

pub as_string-terminated :
    (h : VectorHandler)
    → length h.mhandler < u32_mod
    → as_string h ≡ terminated b':' (map to_bin h.mhandler)
unfolding as_string
as_string-terminated h w =
    as_string_loop-terminated (to_u32 (length h.mhandler)) 0 h.mhandler (omega arith) (omega arith)

-- A vector whose elements are not empty, of bytes, and fewer than 2^32, comes back from its stored text
-- element by element.
pub create-as_string_vector :
    (h : VectorHandler) → IsValid h → (create (as_string h)).mhandler ≡ h.mhandler
create-as_string_vector h v =
    rw (as_string-terminated h v.fits) (create-decode _ ∙ decode-stored h.mhandler v)

-- Whatever text below 4 GB is loaded, the vector built from it is valid: no element is empty, all are of
-- bytes, and there are fewer than 2^32.
pub create-IsValid_vector : (load : Str) → length load < u32_mod → IsValid (create load)
create-IsValid_vector load w = rw (create-decode load) (decode-IsClean load w)
