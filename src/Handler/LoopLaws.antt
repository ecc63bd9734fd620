-- ===== src/Handler/LoopLaws.antt =====
-- What the shared loops compute, below the wrap of their counters.
use beryldb.Prelude.{
  ℕ, zero, suc, ◌+◌, ◌≤◌, ◌<◌, ◌≡◌, refl, true, false, List, [], ◌∷◌, map, Str, All, length,
  get_elem?, arith, Bool-cases, inl, inr,
}
use mathlib.Core.List.{append_assoc}
use beryldb.Machine.{u32_mod, incr32}
use beryldb.Codec.{to_bin}
use beryldb.Nodes.Split.{terminated}
use beryldb.Stl.{occurrences}
use beryldb.Handler.Types.{Double}
use beryldb.Handler.Loops.{as_string_loop, repeats_loop, index_loop, low_loop, high_loop}

incr32_lem : (n : ℕ) → n + 1 < u32_mod → incr32 n ≡ n + 1
incr32_lem n h = omega arith

pub as_string_loop-terminated :
    (size counter : ℕ) (l : List Str)
    → counter + length l ≤ size
    → size < u32_mod
    → as_string_loop size counter l ≡ terminated b':' (map to_bin l)
unfolding as_string_loop terminated
as_string_loop-terminated size counter [] h w = refl
as_string_loop-terminated size counter (key ∷ l) h w = ground (
  arith,
  incr32_lem counter,
  as_string_loop-terminated size (counter + 1) l (omega arith) w,
  append_assoc (to_bin key) (b':' ∷ []) (as_string_loop size (counter + 1) l),
)

pub repeats_loop-occurrences :
    (word : Str) (counter : ℕ) (l : List Str)
    → counter + length l < u32_mod
    → repeats_loop word counter l ≡ counter + occurrences word l
unfolding repeats_loop occurrences
repeats_loop-occurrences word counter [] h = omega arith
repeats_loop-occurrences word counter (item ∷ l) h = ground (
  arith,
  incr32_lem counter,
  repeats_loop-occurrences word counter l (omega arith),
  repeats_loop-occurrences word (counter + 1) l (omega arith),
)

pub index_loop-get_elem? :
    (pos counter i : ℕ) (l : List Str)
    → counter + i ≡ pos
    → counter + length l < u32_mod
    → index_loop pos counter l ≡ get_elem? l i
unfolding index_loop
index_loop-get_elem? pos counter i [] e h = refl
index_loop-get_elem? pos counter zero (item ∷ l) e h = ground arith
index_loop-get_elem? pos counter (suc i) (item ∷ l) e h = ground (
  arith,
  incr32_lem counter,
  index_loop-get_elem? pos (counter + 1) i l (omega arith) (omega arith),
)

-- The laws of `<` that the statistics rely on: they hold of the numbers that are not NaN.
pub record IsOrder (d : Double) : Type 0 where
  pub irreflexive : (x : d.Num) → d.lt x x ≡ false
  pub not_lt_trans : (x y z : d.Num) → d.lt x y ≡ false → d.lt y z ≡ false → d.lt x z ≡ false
  pub asymmetric : (x y : d.Num) → d.lt x y ≡ true → d.lt y x ≡ false

module _ (d : Double) (o : IsOrder d) where
  -- No item is below the result, and the result is not above the start.
  pub low_loop_bounds :
      (value r : d.Num) (l : List Str)
      → low_loop d value l ≡ r
      → All (λ x. d.lt (d.convto_num x) r ≡ false) l × (d.lt value r ≡ false)
  unfolding low_loop
  low_loop_bounds value r [] e = (tt, rw (← e) (o.irreflexive value))
  low_loop_bounds value r (x ∷ l) e = elim (Bool-cases (d.lt (d.convto_num x) value)) [
    | inl below ↦
        let rest = low_loop_bounds (d.convto_num x) r l (ground arith) in
        ((rest.1, rest.0), o.not_lt_trans value _ r (o.asymmetric _ _ below) rest.1)
    | inr above ↦
        let rest = low_loop_bounds value r l (ground arith) in
        ((o.not_lt_trans _ value r above rest.1, rest.0), rest.1)
  ]

  -- No item is above the result, and the result is not below the start.
  pub high_loop_bounds :
      (value r : d.Num) (l : List Str)
      → high_loop d value l ≡ r
      → All (λ x. d.lt r (d.convto_num x) ≡ false) l × (d.lt r value ≡ false)
  unfolding high_loop
  high_loop_bounds value r [] e = (tt, rw (← e) (o.irreflexive value))
  high_loop_bounds value r (x ∷ l) e = elim (Bool-cases (d.lt value (d.convto_num x))) [
    | inl above ↦
        let rest = high_loop_bounds (d.convto_num x) r l (ground arith) in
        ((rest.1, rest.0), o.not_lt_trans r _ value rest.1 (o.asymmetric _ _ above))
    | inr below ↦
        let rest = high_loop_bounds value r l (ground arith) in
        ((o.not_lt_trans r value _ rest.1 below, rest.0), rest.1)
  ]

  -- Where no item is above the start, the start is the result.
  pub high_loop_start :
      (value : d.Num) (l : List Str)
      → All (λ x. d.lt value (d.convto_num x) ≡ false) l
      → high_loop d value l ≡ value
  unfolding high_loop
  high_loop_start value [] h = refl
  high_loop_start value (x ∷ l) h = rw h.0 (high_loop_start value l h.1)
