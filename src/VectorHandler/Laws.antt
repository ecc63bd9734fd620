-- ===== src/VectorHandler/Laws.antt =====
-- What the methods of the vector do to its elements and to the message.
use beryldb.Prelude.{
  ℕ, ◌+◌, ◌<◌, ◌≡◌, ◌≢◌, refl, ap, sym, ◌∙◌, true, List, [], ◌∷◌, Str, Option, some, none,
  IsNonempty, length, get_elem?, str_eq, List-cases, arith, if◌then◌else◌, Option-cases, inl, inr,
  ◌⊎◌,
}
use mathlib.Core.List.{Perm, append-nil, reverse-reverse, reverse-append}
use mathlib.Core.List
use beryldb.Machine.{u32_mod, ret, fault, null_string, erase_end}
use beryldb.Stl.{is_nil, pop_back, back_or, erase_first, occurrences}
use beryldb.Stl.Sequence.{pop_back-back, occurrences-erase_first, erase_first-none}
use beryldb.Handler.Types.{HandlerMsg, ok, not_found}
use beryldb.Handler.LoopLaws.{repeats_loop-occurrences, index_loop-get_elem?}
use beryldb.VectorHandler
use beryldb.VectorHandler.{VectorHandler}

occurrences-nil : (word : Str) (l : List Str) → is_nil l ≡ true → occurrences word l ≡ 0
unfolding occurrences
occurrences-nil word [] h = refl
occurrences-nil word (x ∷ l) h = cc

-- `Remove` of a key that is not empty, on a vector that has not exactly one element: where the key is
-- present one occurrence goes and no other count changes; where it is missing the end is erased, which
-- is undefined.
pub remove_outcome :
    (h : VectorHandler) (key : Str)
    → IsNonempty key
    → length h.mhandler ≢ 1
    → ((VectorHandler.remove h key ≡ fault erase_end) × (occurrences key h.mhandler ≡ 0))
      ⊎ ((g : VectorHandler) × (VectorHandler.remove h key ≡ ret g)
          × ((word : Str)
              → occurrences word h.mhandler
                ≡ occurrences word g.mhandler + (if str_eq key word then 1 else 0)))
unfolding VectorHandler.remove
remove_outcome h [] n l = absurd n
remove_outcome h (c ∷ key) n l = elim (Option-cases (erase_first (c ∷ key) h.mhandler)) [
  | inl e ↦ inl (ground arith, erase_first-none (c ∷ key) h.mhandler e)
  | inr (m, e) ↦ inr (
    record { mhandler = m; last_msg = some ok },
    ground arith,
    λ word. occurrences-erase_first (c ∷ key) word h.mhandler m e,
  )
]

-- The only element of a vector is erased by `Remove` of any key that is not empty, equal or not.
pub remove_single :
    (x key : Str) (m : Option HandlerMsg)
    → IsNonempty key
    → VectorHandler.remove (record { mhandler = x ∷ []; last_msg = m }) key
      ≡ ret (record { mhandler = []; last_msg = some ok })
unfolding VectorHandler.remove
remove_single x [] m n = absurd n
remove_single x (c ∷ key) m n = refl

-- What `Index` returns for what is at the position.
abbrev pub indexed : VectorHandler → Option Str → VectorHandler × Str
indexed h none = (record h { last_msg = some not_found }, [])
indexed h (some item) = (record h { last_msg = some ok }, item)

-- `Index` of a vector below 2^32 elements: a fault on the empty one; and else the element at the
-- position, or the empty string with the message not found where there is none.
pub index-get_elem?_vector :
    (h : VectorHandler) (pos : ℕ)
    → length h.mhandler < u32_mod
    → VectorHandler.index h pos ≡ (
        if is_nil h.mhandler then fault null_string else ret (indexed h (get_elem? h.mhandler pos)))
unfolding VectorHandler.index
index-get_elem?_vector h pos w =
    rw (index_loop-get_elem? pos 0 pos h.mhandler (omega arith) (omega arith)) (ground arith)

-- `Repeats` counts the occurrences of the word.
pub repeats-occurrences_vector :
    (h : VectorHandler) (word : Str)
    → length h.mhandler < u32_mod
    → (VectorHandler.repeats h word).1 ≡ occurrences word h.mhandler
unfolding VectorHandler.repeats
repeats-occurrences_vector h word w = ground (
  arith,
  occurrences-nil word h.mhandler,
  repeats_loop-occurrences word 0 h.mhandler (omega arith),
)

reverse-back :
    (x : Str) (l : List Str)
    → List.reverse (x ∷ l) ≡ back_or [] (x ∷ l) ∷ List.reverse (pop_back (x ∷ l))
reverse-back x l =
    ap List.reverse (sym (pop_back-back [] x l)) ∙ reverse-append (pop_back (x ∷ l)) _

-- `Reverse` twice gives the elements back, and exchanges the first and the last element.
pub reverse_twice :
    (h : VectorHandler)
    → ((VectorHandler.reverse (VectorHandler.reverse h)).mhandler ≡ h.mhandler)
      × ((VectorHandler.front (VectorHandler.reverse h)).1 ≡ (VectorHandler.back h).1)
unfolding VectorHandler.reverse VectorHandler.front VectorHandler.back
reverse_twice h = elim (List-cases h.mhandler) [
  | inl e ↦ (reverse-reverse h.mhandler, ground arith)
  | inr (x, l, e) ↦ (reverse-reverse h.mhandler, ground (arith, reverse-back x l))
]
