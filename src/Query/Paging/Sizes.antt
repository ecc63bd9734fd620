-- ===== src/Query/Paging/Sizes.antt =====
-- Each page that is attached holds exactly ITER_LIMIT items.
use beryldb.Prelude.{
  ℕ, ◌+◌, ◌%◌, ◌<◌, ◌≤◌, ◌≡◌, refl, Bool, true, false, List, [], ◌∷◌, ◌++◌, Str, All, All-append,
  length, length-append, arith, ◌==◌, if◌then◌else◌, Bool-cases, inl, inr, not, ◌&&◌,
}
use beryldb.Machine.{u32_mod, ℤ, to_int}
use beryldb.Query.Types.{Page}
use beryldb.Query.Paging.{
  iter_limit, Paging, is_mone, int_leb, int_ltb, to_unsigned, flush_page, taken, page_add,
  count_item, page_step, page_loop, start,
}

abbrev pub IsFull : Page → Type 0
IsFull p = length p.page_data ≡ iter_limit

-- The pages are full, and the rest is what does not fill one.
pub record IsPaged (p : Paging) : Type 0 where
  pub full : All IsFull p.pages
  pub rest : length p.result ≡ p.aux % iter_limit

page_add-IsPaged :
    (item : Str) (p : Paging) → p.aux + 1 < u32_mod → IsPaged p → IsPaged (page_add item p)
unfolding page_add flush_page
page_add-IsPaged item p w h =
    let size : length (p.result ++ item ∷ []) ≡ p.aux % iter_limit + 1 =
      omega (arith, length-append p.result (item ∷ []), h.rest) in
    elim (Bool-cases ((taken item p).aux % iter_limit == 0)) [
      | inl end ↦ rw end record {
        full = All-append IsFull p.pages _ h.full (ground (arith, size), tt);
        rest = ground arith;
      }
      | inr room ↦ rw room record { full = h.full; rest = ground (arith, size) }
    ]

-- At most `b` items were taken.
Within : ℕ → Paging → Type 0
Within b p = IsPaged p × (p.aux ≤ b)

Within-if :
    (b : ℕ) (t : Bool) (x y : Paging × Bool)
    → Within b x.0
    → Within b y.0
    → Within b (if t then x else y).0
Within-if b true x y hx hy = hx
Within-if b false x y hx hy = hy

Within-add :
    (b : ℕ) (item : Str) (p : Paging)
    → b + 1 < u32_mod
    → Within b p
    → Within (b + 1) (page_add item p)
unfolding Within page_add flush_page
Within-add b item p w h = (page_add-IsPaged item p (omega (arith, h.1)) h.0, aux_lem)
  where
    aux_lem : (page_add item p).aux ≤ b + 1
    aux_lem = elim (Bool-cases ((taken item p).aux % iter_limit == 0)) [
      | inl end ↦ rw end (omega (arith, h.1))
      | inr room ↦ rw room (omega (arith, h.1))
    ]

Within-count : (b : ℕ) (p : Paging) → Within b p → Within b (count_item p)
unfolding Within count_item
Within-count b p h = (record { full = h.0.full; rest = h.0.rest }, h.1)

Within-weaken : (b : ℕ) (p : Paging) → Within b p → Within (b + 1) p
unfolding Within
Within-weaken b p h = (h.0, omega (arith, h.1))

Within-step :
    (b : ℕ) (o m : ℤ) (item : Str) (p : Paging)
    → b + 1 < u32_mod
    → Within b p
    → Within (b + 1) (page_step o m item p).0
unfolding page_step
Within-step b o m item p w h =
    let added = Within-add b item p w h in
    let passed = Within-weaken b (count_item p) (Within-count b p h) in
    Within-if (b + 1) (not (is_mone m) && int_leb o (to_int p.total)) _ _
      (Within-if (b + 1) (int_ltb (to_int p.aux) m) _ _
        (Within-if (b + 1) ((page_add item p).aux == to_unsigned m) (page_add item p, true)
          (count_item (page_add item p), false) added
          (Within-count (b + 1) (page_add item p) added))
        passed)
      (Within-if (b + 1) (is_mone m) (count_item (page_add item p), false) (count_item p, false)
        (Within-count (b + 1) (page_add item p) added) passed)

Within-loop :
    (b : ℕ) (o m : ℤ) (l : List Str) (p : Paging)
    → b + length l < u32_mod
    → Within b p
    → IsPaged (page_loop o m l p)
unfolding page_loop Within
Within-loop b o m [] p w h = h.0
Within-loop b o m (item ∷ l) p w h =
    let next = Within-step b o m item p (omega arith) h in
    elim (Bool-cases (page_step o m item p).1) [
      | inl last ↦ rw last next.0
      | inr more ↦ rw more (Within-loop (b + 1) o m l (page_step o m item p).0 (omega arith) next)
    ]

-- Whatever the offset and the limit are, of fewer than 2^32 items: each page that is attached holds 50
-- items, and fewer than 50 are left for the query itself.
pub page_loop-IsPaged :
    (o m : ℤ) (l : List Str)
    → length l < u32_mod
    → All IsFull (page_loop o m l start).pages
      × (length (page_loop o m l start).result < iter_limit)
page_loop-IsPaged o m l w =
    let paged : IsPaged (page_loop o m l start) =
      Within-loop 0 o m l start (omega arith)
        (unfold Within in (record { full = tt; rest = refl }, omega arith)) in
    (paged.full, omega (arith, paged.rest))
