-- ===== src/Lists/Effects.antt =====
-- The methods of the list handler, as the functions of the list that the commands make of it.
use beryldb.Prelude.{
  ◌≡◌, refl, true, false, none, some, List, [], ◌∷◌, Str, IsNonempty, is_empty, str_eq, length,
  arith, ◌==◌, if◌then◌else◌, Bool-cases, List-cases, inl, inr,
}
use beryldb.Stl
use beryldb.Stl.{is_nil, mem, erase_first, remove_all, pop_back}
use beryldb.ListHandler
use beryldb.ListHandler.{ListHandler}
use beryldb.Query.Replies.{is_msg_not_found}
use beryldb.Lists.Spec.{del, kept, tail, after}

-- What the methods of the handler make of the elements.
pub after_pop_front : (h : ListHandler) → (ListHandler.pop_front h).mhandler ≡ tail h.mhandler
unfolding ListHandler.pop_front ListHandler.erase
after_pop_front h = elim (List-cases h.mhandler) [
  | inl e ↦ ground arith
  | inr (x, [], e) ↦ ground arith
  | inr (x, y ∷ l, e) ↦ ground arith
]

pub after_pop_back : (h : ListHandler) → (ListHandler.pop_back h).mhandler ≡ Stl.pop_back h.mhandler
unfolding ListHandler.pop_back ListHandler.erase Stl.pop_back
after_pop_back h = elim (List-cases h.mhandler) [
  | inl e ↦ ground arith
  | inr (x, [], e) ↦ ground arith
  | inr (x, y ∷ l, e) ↦ ground arith
]

pub after_pop_all :
    (h : ListHandler) (key : Str)
    → IsNonempty key
    → (ListHandler.pop_all h key).mhandler
      ≡ (if length h.mhandler == 1 then [] else remove_all key h.mhandler)
unfolding ListHandler.pop_all ListHandler.erase
after_pop_all h [] n = absurd n
after_pop_all h (c ∷ key) n = ground arith

pub mem-erase_first :
    (key : Str) (l : List Str) → mem key l ≡ true → (l' : List Str) × (erase_first key l ≡ some l')
unfolding mem erase_first
mem-erase_first key [] e = cc
mem-erase_first key (x ∷ l) e = elim (Bool-cases (str_eq x key)) [
  | inl hit ↦ (l, ground arith)
  | inr miss ↦ let (l', e') = mem-erase_first key l (ground arith) in (x ∷ l', ground arith)
]

pub mem-erase_first-none : (key : Str) (l : List Str) → mem key l ≡ false → erase_first key l ≡ none
unfolding mem erase_first
mem-erase_first-none key [] e = refl
mem-erase_first-none key (x ∷ l) e = ground (arith, mem-erase_first-none key l)

pub after_remove :
    (h : ListHandler) (key : Str)
    → mem key h.mhandler ≡ true
    → kept (ListHandler.remove h key).mhandler ≡ after del key (some h.mhandler)
unfolding after ListHandler.remove mem
after_remove h key hit =
    let (l', e) = mem-erase_first key h.mhandler hit in
    elim (List-cases h.mhandler) [ inl nil ↦ ground arith | inr (x, l, c) ↦ ground arith ]

pub after_del_none :
    (l : List Str) (key : Str) → mem key l ≡ false → after del key (some l) ≡ some l
unfolding after
after_del_none l key miss = ground (arith, mem-erase_first-none key l miss)

pub rpop_lem :
    (h : ListHandler)
    → (is_msg_not_found (ListHandler.get_last (ListHandler.rpop h).0) ≡ is_nil h.mhandler)
      × ((ListHandler.rpop h).0.mhandler ≡ Stl.pop_back h.mhandler)
unfolding ListHandler.rpop ListHandler.get_last Stl.pop_back
rpop_lem h = elim (List-cases h.mhandler) [
  | inl e ↦ (ground arith, ground arith)
  | inr (x, l, e) ↦ (ground arith, ground arith)
]

pub filled-is_empty : (s : Str) → IsNonempty s → is_empty s ≡ false
filled-is_empty [] n = absurd n
filled-is_empty (c ∷ s) n = refl
