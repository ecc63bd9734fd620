-- ===== src/ListHandler/Invariant.antt =====
-- Every method keeps a list that can be stored: the calls as data, and what any sequence of them keeps.
use beryldb.Prelude.{
  ◌+◌, ◌<◌, ◌≡◌, refl, [], ◌∷◌, Str, IsBytes, IsNonempty, All, All-append, length, length-append,
  arith, Option-cases, List-cases, inl, inr, subst,
}
use mathlib.Core.List.{Perm}
use beryldb.Machine.{u32_mod}
use beryldb.Stl.{erase_first}
use beryldb.Stl.Elements.{
  All-pop_back, All-erase_first, All-remove_all, All-reverse, All-sort, length-pop_back-le,
  length-erase_first, length-remove_all-le, length-reverse, length-sort,
}
use beryldb.Stl.Sequence.{sort-perm, sort-IsSorted, IsSorted}
use beryldb.ListHandler
use beryldb.ListHandler.{ListHandler}
use beryldb.ListHandler.Persist.{IsValid, create-as_string}

pub data Call : Type 0 where
  adds pops_all removes : Str → Call
  pops_front pops_back rpops reverses sorts erases : Call

unfoldable pub step : ListHandler → Call → ListHandler
step h (adds key) = ListHandler.add h key
step h (pops_all key) = ListHandler.pop_all h key
step h (removes key) = ListHandler.remove h key
step h pops_front = ListHandler.pop_front h
step h pops_back = ListHandler.pop_back h
step h rpops = (ListHandler.rpop h).0
step h reverses = ListHandler.reverse h
step h sorts = ListHandler.sort h
step h erases = ListHandler.erase h

-- An added key is made of bytes and finds room below 2^32 elements.
abbrev pub Fits : ListHandler → Call → Type 0
Fits h (adds key) = IsBytes key × (length h.mhandler + 1 < u32_mod)
Fits h _ = Unit

module _ (P : Str → Type 0) where
  step-All :
      (h : ListHandler) (c : Call)
      → ((key : Str) → c ≡ adds key → IsNonempty key → P key)
      → All P h.mhandler
      → All P (step h c).mhandler
  unfolding step ListHandler.add ListHandler.pop_all ListHandler.remove ListHandler.pop_front
      ListHandler.pop_back ListHandler.rpop ListHandler.reverse ListHandler.sort
  step-All h (adds []) a v = v
  step-All h (adds (c ∷ key)) a v = All-append P h.mhandler _ v (a (c ∷ key) refl tt, tt)
  step-All h (pops_all key) a v = ground (arith, All-remove_all P key h.mhandler v)
  step-All h (removes key) a v = elim (Option-cases (erase_first key h.mhandler)) [
    | inl e ↦ ground arith
    | inr (l, e) ↦ ground (arith, All-erase_first P key h.mhandler l e v)
  ]
  step-All h pops_front a v = elim (List-cases h.mhandler) [
    | inl e ↦ ground arith
    | inr (x, [], e) ↦ ground arith
    | inr (x, y ∷ l, e) ↦ ground arith
  ]
  step-All h pops_back a v = elim (List-cases h.mhandler) [
    | inl e ↦ ground arith
    | inr (x, [], e) ↦ ground arith
    | inr (x, y ∷ l, e) ↦ ground (arith, All-pop_back P h.mhandler v)
  ]
  step-All h rpops a v = ground (arith, All-pop_back P h.mhandler v)
  step-All h reverses a v = All-reverse P h.mhandler v
  step-All h sorts a v = All-sort P h.mhandler v
  step-All h erases a v = tt

length-step :
    (h : ListHandler) (c : Call)
    → Fits h c
    → length h.mhandler < u32_mod
    → length (step h c).mhandler < u32_mod
unfolding step ListHandler.add ListHandler.pop_all ListHandler.remove ListHandler.pop_front
    ListHandler.pop_back ListHandler.rpop ListHandler.reverse ListHandler.sort
length-step h (adds []) f w = w
length-step h (adds (c ∷ key)) f w = omega (arith, length-append h.mhandler ((c ∷ key) ∷ []))
length-step h (pops_all key) f w = ground (arith, length-remove_all-le key h.mhandler)
length-step h (removes key) f w = elim (Option-cases (erase_first key h.mhandler)) [
  | inl e ↦ ground arith
  | inr (l, e) ↦ ground (arith, length-erase_first key h.mhandler l e)
]
length-step h pops_front f w = elim (List-cases h.mhandler) [
  | inl e ↦ ground arith
  | inr (x, [], e) ↦ ground arith
  | inr (x, y ∷ l, e) ↦ ground arith
]
length-step h pops_back f w = elim (List-cases h.mhandler) [
  | inl e ↦ ground arith
  | inr (x, [], e) ↦ ground arith
  | inr (x, y ∷ l, e) ↦ ground (arith, length-pop_back-le h.mhandler)
]
length-step h rpops f w = ground (arith, length-pop_back-le h.mhandler)
length-step h reverses f w = omega (arith, length-reverse h.mhandler)
length-step h sorts f w = omega (arith, length-sort h.mhandler)
length-step h erases f w = omega arith

-- Each call keeps the list valid, when an added key is made of bytes and finds room.
pub step-IsValid : (h : ListHandler) (c : Call) → IsValid h → Fits h c → IsValid (step h c)
step-IsValid h c v f = record {
  filled = step-All IsNonempty h c (λ key e n. n) v.filled;
  bytes = step-All IsBytes h c (λ key e n. added key e) v.bytes;
  fits = length-step h c f v.fits;
}
  where
    added : (key : Str) → c ≡ adds key → IsBytes key
    added key e = (subst (Fits h) e f).0

-- The states of a list after a sequence of calls, each with its room.
pub data Reach (h : ListHandler) : ListHandler → Type 0 where
  start : Reach h h
  call : {g : ListHandler} → Reach h g → (c : Call) → Fits g c → Reach h (step g c)

-- Whatever sequence of additions, removals, pops, reversals, sorts and erasures is made on a valid
-- list, where the added keys are of bytes and find room below 2^32 elements, the stored text of the
-- list that results loads to the same elements.
pub Reach-stored :
    {h g : ListHandler}
    → IsValid h
    → Reach h g
    → (ListHandler.create (ListHandler.as_string g)).mhandler ≡ g.mhandler
Reach-stored {h} {g} v r = create-as_string g (reached r)
  where
    reached : {k : ListHandler} → Reach h k → IsValid k
    reached start = v
    reached (call r' c f) = step-IsValid _ c (reached r') f

-- `Sort` orders the elements by their bytes and neither adds nor loses any.
pub sort_lem :
    (h : ListHandler)
    → IsSorted (ListHandler.sort h).mhandler × Perm (ListHandler.sort h).mhandler h.mhandler
unfolding ListHandler.sort
sort_lem h = (sort-IsSorted h.mhandler, sort-perm h.mhandler)
