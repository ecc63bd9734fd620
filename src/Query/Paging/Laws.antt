-- ===== src/Query/Paging/Laws.antt =====
-- The pages of a listing query hold, one after the other, the items from the offset on, up to the limit.
use beryldb.Prelude.{
  ℕ, zero, suc, ◌+◌, ◌-◌, ◌%◌, ◌^◌, ◌≤◌, ◌<◌, ◌≡◌, refl, sym, ap, ap₂, ◌∙◌, true, false, List, [],
  ◌∷◌, ◌++◌, Str, length, take, drop, drop-nil, arith, ltb, ◌==◌, Bool-cases, inl, inr,
}
use mathlib.Core.List.{append_assoc, append-nil}
use beryldb.Machine.{incr32, to_int, u32_mod, ℤ}
use beryldb.Machine.ℤ.{pos, negsuc}
use beryldb.Query.Types.{Page}
use beryldb.Query.Paging.{
  iter_limit, Paging, flush_page, taken, page_add, count_item, page_step, page_loop, start,
}

abbrev pub pages_data : List Page → List Str
pages_data [] = []
pages_data (p ∷ ps) = p.page_data ++ pages_data ps

-- What a client gets: the pages, and what the query holds at the end.
unfoldable pub emitted : Paging → List Str
emitted p = pages_data p.pages ++ p.result

pages_data-append : (ps qs : List Page) → pages_data (ps ++ qs) ≡ pages_data ps ++ pages_data qs
pages_data-append [] qs = refl
pages_data-append (p ∷ ps) qs =
    rw (pages_data-append ps qs) (sym (append_assoc p.page_data (pages_data ps) (pages_data qs)))

emitted-flush_page : (p : Paging) → emitted (flush_page p) ≡ emitted p
unfolding emitted flush_page
emitted-flush_page p = elim (Bool-cases (p.aux % iter_limit == 0)) [
  | inl full ↦ rw full (
      append-nil _
      ∙ pages_data-append p.pages _
      ∙ ap (◌++◌ (pages_data p.pages)) (append-nil p.result))
  | inr room ↦ rw room refl
]

emitted-page_add : (item : Str) (p : Paging) → emitted (page_add item p) ≡ emitted p ++ item ∷ []
unfolding page_add emitted
emitted-page_add item p =
    emitted-flush_page (taken item p) ∙ sym (append_assoc (pages_data p.pages) p.result (item ∷ []))

counters-page_add :
    (item : Str) (p : Paging)
    → ((page_add item p).aux ≡ incr32 p.aux) × ((page_add item p).total ≡ p.total)
unfolding page_add flush_page
counters-page_add item p = elim (Bool-cases (incr32 p.aux % iter_limit == 0)) [
  | inl full ↦ rw full (refl, refl)
  | inr room ↦ rw room (refl, refl)
]

small_int : (n : ℕ) → n < 2 ^ 31 → to_int n ≡ pos n
unfolding to_int
small_int n w = ground arith

module _ (k n : ℕ) (item : Str) (p : Paging) (total : p.total + 1 < 2 ^ 31) (aux : p.aux ≤ p.total)
    (limit : n < 2 ^ 31) where
  step-before : p.total < k → page_step (pos k) (pos n) item p ≡ (count_item p, false)
  unfolding page_step
  step-before h = rw (small_int p.total (omega arith)) (ground arith)

  step-over : k ≤ p.total → n ≤ p.aux → page_step (pos k) (pos n) item p ≡ (count_item p, false)
  unfolding page_step
  step-over h o = rw (small_int p.total (omega arith), small_int p.aux (omega arith)) (ground arith)

  step-last :
      k ≤ p.total → p.aux + 1 ≡ n → page_step (pos k) (pos n) item p ≡ (page_add item p, true)
  unfolding page_step
  step-last h o =
      rw
        (
          small_int p.total (omega arith),
          small_int p.aux (omega arith),
          (counters-page_add item p).0,
        )
        (ground arith)

  step-take :
      k ≤ p.total
      → p.aux + 1 < n
      → page_step (pos k) (pos n) item p ≡ (count_item (page_add item p), false)
  unfolding page_step
  step-take h o =
      rw
        (
          small_int p.total (omega arith),
          small_int p.aux (omega arith),
          (counters-page_add item p).0,
        )
        (ground arith)

-- A round that goes on, and one that breaks.
loop-next :
    (o m : ℤ) (item : Str) (l : List Str) (p p' : Paging)
    → page_step o m item p ≡ (p', false)
    → page_loop o m (item ∷ l) p ≡ page_loop o m l p'
unfolding page_loop
loop-next o m item l p p' e = rw e refl

loop-break :
    (o m : ℤ) (item : Str) (l : List Str) (p p' : Paging)
    → page_step o m item p ≡ (p', true)
    → page_loop o m (item ∷ l) p ≡ p'
unfolding page_loop
loop-break o m item l p p' e = rw e refl

emitted-count_item : (p : Paging) → emitted (count_item p) ≡ emitted p
unfolding emitted count_item
emitted-count_item p = refl

-- What is still to come of the items, behind the offset and below the limit.
abbrev window : ℕ → ℕ → List Str → Paging → List Str
window k n l p = take (n - p.aux) (drop (k - p.total) l)

take-nil : (n : ℕ) → take {A = Str} n [] ≡ []
take-nil zero = refl
take-nil (suc n) = refl

take-zero : (n : ℕ) (l : List Str) → n ≡ 0 → take n l ≡ []
take-zero n l e = rw e refl

window-nil : (k n : ℕ) (p : Paging) → window k n [] p ≡ []
window-nil k n p = rw (drop-nil (k - p.total)) (take-nil (n - p.aux))

window-before :
    (k n : ℕ) (item : Str) (l : List Str) (p : Paging)
    → p.total + 1 < 2 ^ 31
    → p.total < k
    → window k n (item ∷ l) p ≡ window k n l (count_item p)
unfolding count_item
window-before k n item l p w h =
    let e : k - p.total ≡ suc (k - incr32 p.total) = omega arith in rw e refl

-- The item is the next one of the window.
window-take :
    (k n : ℕ) (item : Str) (l : List Str) (p : Paging)
    → k ≤ p.total
    → p.aux < n
    → window k n (item ∷ l) p ≡ item ∷ take (n - (p.aux + 1)) l
window-take k n item l p h o =
    let e : k - p.total ≡ 0 = omega arith in
    let f : n - p.aux ≡ suc (n - (p.aux + 1)) = omega arith in rw (e, f) refl

window-taken :
    (k n : ℕ) (item : Str) (l : List Str) (p : Paging)
    → k ≤ p.total
    → p.aux + 1 < u32_mod
    → p.total + 1 < u32_mod
    → window k n l (count_item (page_add item p)) ≡ take (n - (p.aux + 1)) l
unfolding count_item
window-taken k n item l p h w v =
    let (a, t) = counters-page_add item p in
    let e : k - incr32 p.total ≡ 0 = omega arith in
    let f : incr32 p.aux ≡ p.aux + 1 = omega arith in rw (a, t, e, f) refl

counted : (p : Paging) → p.total + 1 < u32_mod → (count_item p).total ≡ p.total + 1
unfolding count_item
counted p w = omega arith

aux_added :
    (item : Str) (p : Paging) → p.aux + 1 < u32_mod → (count_item (page_add item p)).aux ≡ p.aux + 1
unfolding count_item
aux_added item p w = omega (arith, (counters-page_add item p).0)

total_added :
    (item : Str) (p : Paging)
    → p.total + 1 < u32_mod
    → (count_item (page_add item p)).total ≡ p.total + 1
unfolding count_item
total_added item p w = omega (arith, (counters-page_add item p).1)

aux_counted : (p : Paging) → (count_item p).aux ≡ p.aux
unfolding count_item
aux_counted p = refl

emitted-page_loop :
    (k n : ℕ) (l : List Str) (p : Paging)
    → n < 2 ^ 31
    → p.aux ≤ p.total
    → p.total + length l < 2 ^ 31
    → emitted (page_loop (pos k) (pos n) l p) ≡ emitted p ++ window k n l p
emitted-page_loop k n [] p limit aux total =
    unfold page_loop in rw (window-nil k n p) (sym (append-nil (emitted p)))
emitted-page_loop k n (item ∷ l) p limit aux total =
    let small : (count_item p).total ≡ p.total + 1 = counted p (omega arith) in
    let aux_small : (count_item (page_add item p)).aux ≡ p.aux + 1 =
      aux_added item p (omega arith) in
    let total_small : (count_item (page_add item p)).total ≡ p.total + 1 =
      total_added item p (omega arith) in
    elim (Bool-cases (ltb p.total k)) [
      | inl before ↦
          ap emitted (
            loop-next (pos k) (pos n) item l p _
              (step-before k n item p (omega arith) aux limit (ground arith)))
          ∙ emitted-page_loop k n l (count_item p) limit (omega (arith, small, aux_counted p))
              (omega (arith, small))
          ∙ ap₂ ◌++◌ (emitted-count_item p)
              (sym (window-before k n item l p (omega arith) (ground arith)))
      | inr reached ↦ elim (Bool-cases (ltb p.aux n)) [
        | inl room ↦ elim (Bool-cases (p.aux + 1 == n)) [
          | inl last ↦
              ap emitted (
                loop-break (pos k) (pos n) item l p _
                  (step-last k n item p (omega arith) aux limit (ground arith) (ground arith)))
              ∙ emitted-page_add item p
              ∙ ap (◌++◌ (emitted p)) (
                  sym (
                    window-take k n item l p (ground arith) (ground arith)
                    ∙ ap (◌∷◌ item) (take-zero _ l (ground arith))))
          | inr more ↦
              ap emitted (
                loop-next (pos k) (pos n) item l p _
                  (step-take k n item p (omega arith) aux limit (ground arith) (ground arith)))
              ∙ emitted-page_loop k n l (count_item (page_add item p)) limit
                  (omega (arith, aux_small, total_small)) (omega (arith, total_small))
              ∙ rw
                  (
                    emitted-count_item (page_add item p),
                    emitted-page_add item p,
                    window-taken k n item l p (ground arith) (ground arith) (ground arith),
                    window-take k n item l p (ground arith) (ground arith),
                  )
                  (append_assoc (emitted p) (item ∷ []) _)
        ]
        | inr over ↦
            ap emitted (
              loop-next (pos k) (pos n) item l p _
                (step-over k n item p (omega arith) aux limit (ground arith) (ground arith)))
            ∙ emitted-page_loop k n l (count_item p) limit (omega (arith, small, aux_counted p))
                (omega (arith, small))
            ∙ ap₂ ◌++◌ (emitted-count_item p)
                (take-zero _ _ (ground (arith, aux_counted p)) ∙ sym (take-zero _ _ (ground arith)))
      ]
    ]

-- A listing with a limit and an offset, of fewer than 2^31 items: the pages and the rest hold, one after the
-- other, the items from the offset on, as many as the limit says.
pub emitted-limit :
    (k n : ℕ) (l : List Str)
    → n < 2 ^ 31
    → length l < 2 ^ 31
    → emitted (page_loop (pos k) (pos n) l start) ≡ take n (drop k l)
emitted-limit k n l limit total =
    emitted-page_loop k n l start limit (omega arith) (omega (arith, total))
    ∙ unfold emitted in ap₂ (λ a b. take a (drop b l)) (omega arith) (omega arith)

-- A round where there is no limit.
step-all :
    (k : ℤ) (item : Str) (p : Paging)
    → page_step k (negsuc 0) item p ≡ (count_item (page_add item p), false)
unfolding page_step
step-all k item p = ground arith

emitted-page_loop_all :
    (k : ℤ) (l : List Str) (p : Paging) → emitted (page_loop k (negsuc 0) l p) ≡ emitted p ++ l
emitted-page_loop_all k [] p = unfold page_loop in sym (append-nil (emitted p))
emitted-page_loop_all k (item ∷ l) p =
    ap emitted (loop-next k (negsuc 0) item l p _ (step-all k item p))
    ∙ emitted-page_loop_all k l (count_item (page_add item p))
    ∙ rw (emitted-count_item (page_add item p), emitted-page_add item p)
        (append_assoc (emitted p) (item ∷ []) l)

-- A listing without a limit (-1), whatever the offset is: the pages and the rest hold all the items in their order.
pub emitted-all : (k : ℤ) (l : List Str) → emitted (page_loop k (negsuc 0) l start) ≡ l
emitted-all k l = emitted-page_loop_all k l start ∙ unfold emitted in refl
