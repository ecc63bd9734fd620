-- ===== src/Rocks/Memory.antt =====
-- A store in memory that never fails: the assumptions about RocksDB hold of it.
use beryldb.Prelude.{
  ◌≡◌, refl, sym, ap, ◌∙◌, Option, none, some, List, [], ◌∷◌, Str, str_eq, str_eq_iff, arith,
  if◌then◌else◌,
}
use beryldb.Rocks.{Rocks, IsStore, Deletes, BatchOp, put_op, delete_op, after_batch}

unfoldable pub lookup : List (Str × Str) → Str → Option Str
lookup [] j = none
lookup ((k, v) ∷ s) j = let rest = lookup s j in if str_eq k j then some v else rest

unfoldable pub without : List (Str × Str) → Str → List (Str × Str)
without [] k = []
without ((j, v) ∷ s) k = let rest = without s k in if str_eq k j then rest else (j, v) ∷ rest

unfoldable pub apply : List (Str × Str) → List BatchOp → List (Str × Str)
apply s [] = s
apply s (put_op k v ∷ ops) = apply ((k, v) ∷ s) ops
apply s (delete_op k ∷ ops) = apply (without s k) ops

abbrev pub memory : Rocks
memory = record {
  State = List (Str × Str);
  get = lookup;
  put = λ s k v. some ((k, v) ∷ s);
  delete = λ s k. some (without s k);
  entries = λ s. s;
  write = λ s ops. some (apply s ops);
}

lookup-without :
    (s : List (Str × Str)) (k j : Str)
    → lookup (without s k) j ≡ (if str_eq k j then none else lookup s j)
unfolding lookup without
lookup-without [] k j = ground arith
lookup-without ((i, v) ∷ s) k j =
    ground (arith, lookup-without s k j, str_eq_iff k i, str_eq_iff i j, str_eq_iff k j)

lookup-apply :
    (s : List (Str × Str)) (ops : List BatchOp) (j : Str)
    → lookup (apply s ops) j ≡ after_batch j (lookup s j) ops
unfolding apply lookup
lookup-apply s [] j = refl
lookup-apply s (put_op k v ∷ ops) j = lookup-apply ((k, v) ∷ s) ops j
lookup-apply s (delete_op k ∷ ops) j =
    lookup-apply (without s k) ops j ∙ ap (λ o. after_batch j o ops) (lookup-without s k j)

lookup-cons :
    (k v : Str) (s : List (Str × Str)) (j : Str)
    → lookup ((k, v) ∷ s) j ≡ (if str_eq k j then some v else lookup s j)
unfolding lookup
lookup-cons k v s j = refl

some_inj : {A : Type 0} {a b : A} → some a ≡ some b → a ≡ b
some_inj e = cc

pub memory-IsStore : IsStore memory
memory-IsStore = record {
  get-put = λ s s' k v j e. ap (λ t. lookup t j) (sym (some_inj e)) ∙ lookup-cons k v s j;
  get-delete = λ s s' k j e. ap (λ t. lookup t j) (sym (some_inj e)) ∙ lookup-without s k j;
  get-write = λ s s' ops j e. ap (λ t. lookup t j) (sym (some_inj e)) ∙ lookup-apply s ops j;
}

-- A store that takes no Put and no batch: the assumptions hold of it too.
abbrev pub read_only : Rocks
read_only = record memory { put = λ s k v. none; write = λ s ops. none }

pub read_only-IsStore : IsStore read_only
read_only-IsStore = record {
  get-put = λ s s' k v j e. absurd (cc e);
  get-delete = λ s s' k j e. ap (λ t. lookup t j) (sym (some_inj e)) ∙ lookup-without s k j;
  get-write = λ s s' ops j e. absurd (cc e);
}

pub memory-Deletes : Deletes memory
memory-Deletes s k = (without s k, refl)

pub read_only-Deletes : Deletes read_only
read_only-Deletes s k = (without s k, refl)

-- A store that takes nothing, and no Delete either.
abbrev pub frozen : Rocks
frozen = record read_only { delete = λ s k. none }

pub frozen-IsStore : IsStore frozen
frozen-IsStore = record {
  get-put = λ s s' k v j e. absurd (cc e);
  get-delete = λ s s' k j e. absurd (cc e);
  get-write = λ s s' ops j e. absurd (cc e);
}
