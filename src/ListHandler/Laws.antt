-- ===== src/ListHandler/Laws.antt =====
-- What the methods of the list do to its elements and to the message.
use beryldb.Prelude.{
  ℕ, ◌-◌, ◌<◌, ◌≡◌, ◌≢◌, refl, true, false, List, [], ◌∷◌, ◌++◌, Str, Option, some, none,
  IsNonempty, All, length, get_elem?, str_eq, str_eq_iff, List-cases, arith, if◌then◌else◌,
  Option-cases, inl, inr, ◌↔◌,
}
use beryldb.Machine.{u32_mod, ret, fault, null_string}
use beryldb.Stl
use beryldb.Stl.{is_nil, pop_back, back_or, mem, erase_first, remove_all, occurrences}
use beryldb.Stl.Sequence.{
  pop_back-back, pop_back-append, back_or-append, occurrences-erase_first, erase_first-none,
  occurrences-remove_all,
}
use beryldb.Handler.Types.{HandlerMsg, ok, not_found, Double}
use beryldb.Handler.Loops.{low_loop}
use beryldb.Handler.LoopLaws.{
  repeats_loop-occurrences, index_loop-get_elem?, IsOrder, low_loop_bounds, high_loop_bounds,
  high_loop_start,
}
use beryldb.ListHandler
use beryldb.ListHandler.{ListHandler}

occurrences-nil : (word : Str) (l : List Str) → is_nil l ≡ true → occurrences word l ≡ 0
unfolding occurrences
occurrences-nil word [] h = refl
occurrences-nil word (x ∷ l) h = cc

is_nil-append : (l : List Str) (x : Str) → is_nil (l ++ x ∷ []) ≡ false
is_nil-append [] x = refl
is_nil-append (y ∷ l) x = refl

-- `Remove` takes one occurrence of the key out, if there is one, and changes the number of no other
-- element.
pub occurrences-remove :
    (h : ListHandler) (key word : Str)
    → occurrences word (ListHandler.remove h key).mhandler
      ≡ occurrences word h.mhandler - (if str_eq key word then 1 else 0)
unfolding ListHandler.remove
occurrences-remove h key word = elim (Option-cases (erase_first key h.mhandler)) [
  | inl e ↦ ground (
    arith,
    erase_first-none key h.mhandler e,
    str_eq_iff key word,
    occurrences-nil word h.mhandler,
  )
  | inr (l, e) ↦
      ground
        (arith, occurrences-erase_first key word h.mhandler l e, occurrences-nil word h.mhandler)
]

-- Where the list has not exactly one element and the key is not empty, `PopAll` takes out every
-- occurrence of the key and leaves the number of every other element.
pub occurrences-pop_all :
    (h : ListHandler) (key word : Str)
    → IsNonempty key
    → length h.mhandler ≢ 1
    → occurrences word (ListHandler.pop_all h key).mhandler
      ≡ (if str_eq key word then 0 else occurrences word h.mhandler)
unfolding ListHandler.pop_all
occurrences-pop_all h [] word n l = absurd n
occurrences-pop_all h (c ∷ key) word n l =
    ground (arith, occurrences-remove_all (c ∷ key) word h.mhandler)

-- The only element of a list is erased by `PopAll` of any key that is not empty, equal or not.
pub pop_all_single :
    (x key : Str) (m : Option HandlerMsg)
    → IsNonempty key
    → (ListHandler.pop_all (record { mhandler = x ∷ []; last_msg = m }) key).mhandler ≡ []
unfolding ListHandler.pop_all
pop_all_single x [] m n = absurd n
pop_all_single x (c ∷ key) m n = refl

-- What `Index` returns for what is at the position.
abbrev pub indexed : ListHandler → Option Str → ListHandler × Str
indexed h none = (record h { last_msg = some not_found }, [])
indexed h (some item) = (record h { last_msg = some ok }, item)

-- `Index` of a list below 2^32 elements: a fault on the empty list; and else the element at the
-- position, or the empty string with the message not found where there is none.
pub index-get_elem? :
    (h : ListHandler) (pos : ℕ)
    → length h.mhandler < u32_mod
    → ListHandler.index h pos ≡ (
        if is_nil h.mhandler then fault null_string else ret (indexed h (get_elem? h.mhandler pos)))
unfolding ListHandler.index
index-get_elem? h pos w =
    rw (index_loop-get_elem? pos 0 pos h.mhandler (omega arith) (omega arith)) (ground arith)

-- `Repeats` counts the occurrences of the word.
pub repeats-occurrences :
    (h : ListHandler) (word : Str)
    → length h.mhandler < u32_mod
    → (ListHandler.repeats h word).1 ≡ occurrences word h.mhandler
unfolding ListHandler.repeats
repeats-occurrences h word w = ground (
  arith,
  occurrences-nil word h.mhandler,
  repeats_loop-occurrences word 0 h.mhandler (omega arith),
)

-- `RPOP` after `Add` of a key that is not empty returns the key and leaves the elements as they were.
pub rpop-add :
    (h : ListHandler) (key : Str)
    → IsNonempty key
    → ListHandler.rpop (ListHandler.add h key)
      ≡ (record { mhandler = h.mhandler; last_msg = some ok }, key)
unfolding ListHandler.rpop ListHandler.add
rpop-add h [] n = absurd n
rpop-add h (c ∷ key) n = ground (
  arith,
  pop_back-append h.mhandler (c ∷ key),
  back_or-append [] (c ∷ key) h.mhandler,
  is_nil-append h.mhandler (c ∷ key),
)

-- On a list with an element: `Front` and `PopFront` take it apart from the left, `Back` and `PopBack`
-- from the right, and `RPOP` does both of the latter.
pub ends :
    (h : ListHandler)
    → h.mhandler ≢ []
    → ((ListHandler.front h).1 ∷ (ListHandler.pop_front h).mhandler ≡ h.mhandler)
      × ((ListHandler.pop_back h).mhandler ++ (ListHandler.back h).1 ∷ [] ≡ h.mhandler)
      × ((ListHandler.rpop h).0.mhandler ≡ (ListHandler.pop_back h).mhandler)
      × ((ListHandler.rpop h).1 ≡ (ListHandler.back h).1)
unfolding ListHandler.front ListHandler.pop_front ListHandler.pop_back ListHandler.back
    ListHandler.rpop Stl.pop_back back_or
ends h n = elim (List-cases h.mhandler) [
  | inl e ↦ absurd (n e)
  | inr (x, [], e) ↦ (ground arith, ground arith, ground arith, ground arith)
  | inr (x, y ∷ l, e) ↦
      (ground arith, ground (arith, pop_back-back [] x (y ∷ l)), ground arith, ground arith)
]

-- `FPOP` returns on the empty list only: with an element it reads the node that it has destroyed.
pub fpop-ret :
    (h : ListHandler) → ((r : ListHandler × Str) × (ListHandler.fpop h ≡ ret r)) ↔ (h.mhandler ≡ [])
unfolding ListHandler.fpop
fpop-ret h = elim (List-cases h.mhandler) [
  | inl e ↦ ((λ _. e), (λ _. ((record h { last_msg = some not_found }, []), ground arith)))
  | inr (x, l, e) ↦ ((λ r. ground (arith, r.1)), (λ e'. ground arith))
]

-- The statistics, for a `<` of doubles that orders them (no NaN).
module _ (d : Double) (o : IsOrder d) where
  -- Where `<` orders the doubles, `GetLow` of a list with an element returns a value that no element is
  -- below.
  pub get_low_bound :
      (h : ListHandler)
      → h.mhandler ≢ []
      → (r : d.Num) × (ListHandler.get_low d h ≡ ret r)
        × All (λ x. d.lt (d.convto_num x) r ≡ false) h.mhandler
  unfolding ListHandler.get_low
  get_low_bound h n = elim (List-cases h.mhandler) [
    | inl e ↦ absurd (n e)
    | inr (x, l, e) ↦ (
      low_loop d (d.convto_num x) (x ∷ l),
      ground arith,
      rw e (low_loop_bounds d o (d.convto_num x) _ (x ∷ l) refl).0,
    )
  ]

  -- Where `<` orders the doubles, no element is above `GetHigh`, nor is zero.
  pub get_high_bound :
      (h : ListHandler)
      → All (λ x. d.lt (ListHandler.get_high d h) (d.convto_num x) ≡ false) h.mhandler
        × (d.lt (ListHandler.get_high d h) d.zero ≡ false)
  unfolding ListHandler.get_high
  get_high_bound h = high_loop_bounds d o d.zero _ h.mhandler refl

  -- Where no element is above zero, `GetHigh` is zero, whatever the elements are.
  pub get_high_zero :
      (h : ListHandler)
      → All (λ x. d.lt d.zero (d.convto_num x) ≡ false) h.mhandler
      → ListHandler.get_high d h ≡ d.zero
  unfolding ListHandler.get_high
  get_high_zero h a = high_loop_start d o d.zero h.mhandler a
