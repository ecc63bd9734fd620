-- ===== src/Maps/Laws.antt =====
-- src/brldb/maps.cpp: the loop of HLIST and HVALS, which empties the container that it goes through.
use beryldb.Prelude.{
  ℕ, suc, ◌+◌, ◌%◌, ◌<◌, ◌≡◌, refl, sym, ap, ◌∙◌, true, false, List, [], ◌∷◌, ◌++◌, Str, length,
  arith, ltb, ◌==◌, if◌then◌else◌, Bool-cases, inl, inr,
}
use mathlib.Core.List.{append_assoc, append-nil}
use beryldb.Machine.{Outcome, ret, fault, ◌>>=◌, dangling, ℤ, incr32}
use beryldb.Machine.ℤ.{negsuc}
use beryldb.Query.Paging.{Paging, start, iter_limit, count_item}
use beryldb.Maps.{take_item, clearing_loop}

-- The items that the loop holds at its end.
abbrev pub held : Outcome Paging → Outcome (List Str)
held m = m >>= λ p. ret p.result

take_item-result : (item : Str) (p : Paging) → (take_item item p).0.result ≡ p.result ++ item ∷ []
unfolding take_item
take_item-result item p = elim (Bool-cases (incr32 p.aux % iter_limit == 0)) [
  | inl e ↦ rw e refl
  | inr e ↦ rw e refl
]

take_item-aux : (item : Str) (p : Paging) → (take_item item p).0.aux ≡ incr32 p.aux
unfolding take_item
take_item-aux item p = elim (Bool-cases (incr32 p.aux % iter_limit == 0)) [
  | inl e ↦ rw e refl
  | inr e ↦ rw e refl
]

take_item-cleared :
    (item : Str) (p : Paging) → (take_item item p).1 ≡ (incr32 p.aux % iter_limit == 0)
unfolding take_item
take_item-cleared item p = elim (Bool-cases (incr32 p.aux % iter_limit == 0)) [
  | inl e ↦ rw e refl
  | inr e ↦ rw e refl
]

-- What is left of the loop, from the count and the items so far.
abbrev outcome : ℕ → List Str → List Str → Outcome (List Str)
outcome n xs l = if ltb (n + length l) iter_limit then ret (xs ++ l) else fault dangling

outcome-step :
    (n : ℕ) (xs : List Str) (item : Str) (l : List Str)
    → outcome (suc n) (xs ++ item ∷ []) l ≡ outcome n xs (item ∷ l)
outcome-step n xs item l =
    let e : ltb (suc n + length l) iter_limit ≡ ltb (n + suc (length l)) iter_limit =
      ground arith in
    rw e (rw (append_assoc xs (item ∷ []) l) refl)

-- Where fewer than fifty items were taken, the container is cleared by the fiftieth.
cleared-at : (item : Str) (p : Paging) → p.aux < iter_limit → (take_item item p).1 ≡ (p.aux == 49)
cleared-at item p h = take_item-cleared item p ∙ ground arith

held-clearing_loop :
    (o : ℤ) (l : List Str) (p : Paging)
    → p.aux < iter_limit
    → held (clearing_loop o (negsuc 0) l p) ≡ outcome p.aux p.result l
unfolding clearing_loop count_item
held-clearing_loop o [] p h =
    let e : ltb (p.aux + 0) iter_limit ≡ true = ground arith in
    rw e (ap ret (sym (append-nil p.result)))
held-clearing_loop o (item ∷ l) p h = elim (Bool-cases (p.aux == 49)) [
  | inl last ↦
      let e : ltb (p.aux + suc (length l)) iter_limit ≡ false = ground arith in
      rw (cleared-at item p h) (rw last (rw e refl))
  | inr more ↦
      let next : (take_item item p).0.aux ≡ suc p.aux = take_item-aux item p ∙ omega arith in
      let below : (take_item item p).0.aux < iter_limit = ground arith in
      rw (cleared-at item p h) (
        rw more (
          held-clearing_loop o l (count_item (take_item item p).0) below
          ∙ ap (λ n. outcome n (take_item item p).0.result l) next
          ∙ ap (λ xs. outcome (suc p.aux) xs l) (take_item-result item p)
          ∙ outcome-step p.aux p.result item l))
]

-- HLIST and HVALS without a limit go through a container that their loop empties: where it has fewer than fifty
-- items the loop ends with all of them, in order, and from fifty items on its iterator dangles.
pub clearing_loop-outcome :
    (offset : ℤ) (l : List Str)
    → held (clearing_loop offset (negsuc 0) l start)
      ≡ (if ltb (length l) iter_limit then ret l else fault dangling)
clearing_loop-outcome offset l =
    let e : 0 + length l ≡ length l = omega arith in
    held-clearing_loop offset l start (omega arith)
    ∙ ap (λ n. if ltb n iter_limit then ret l else fault dangling) e
