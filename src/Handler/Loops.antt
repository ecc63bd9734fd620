-- ===== src/Handler/Loops.antt =====
-- The loops that the methods of the list and of the vector share: src/brldb/list_handler.cpp and
-- src/brldb/vector_handler.cpp have the same text there.
use beryldb.Prelude.{
  ℕ, Bool, true, false, Option, none, some, List, [], ◌∷◌, ◌++◌, Str, ◌==◌, str_eq, if◌then◌else◌,
}
use beryldb.Machine.{incr32}
use beryldb.Codec.{to_bin, is_number}
use beryldb.Match.{glob}
use beryldb.Handler.Types.{Double}

unfoldable pub index_loop : ℕ → ℕ → List Str → Option Str
index_loop pos counter [] = none
index_loop pos counter (item ∷ l) =
    let rest = index_loop pos (incr32 counter) l in if counter == pos then some item else rest

unfoldable pub repeats_loop : Str → ℕ → List Str → ℕ
repeats_loop word counter [] = counter
repeats_loop word counter (item ∷ l) =
    repeats_loop word (if str_eq item word then incr32 counter else counter) l

unfoldable pub as_string_loop : ℕ → ℕ → List Str → Str
as_string_loop size counter [] = []
as_string_loop size counter (key ∷ l) =
    (if counter == size then [] else to_bin key ++ b':' ∷ [])
    ++ as_string_loop size (incr32 counter) l

unfoldable pub find_loop : Str → List Str → List Str
find_loop key [] = []
find_loop key (item ∷ l) = let rest = find_loop key l in if glob item key then item ∷ rest else rest

unfoldable pub is_numeric_loop : List Str → Bool
is_numeric_loop [] = true
is_numeric_loop (item ∷ l) =
    let rest = is_numeric_loop l in if is_number item true then rest else false

module _ (d : Double) where
  open d use {Num, lt, convto_num}

  unfoldable pub sum_loop : Num → List Str → Num
  sum_loop value [] = value
  sum_loop value (item ∷ l) = sum_loop (d.add value (convto_num item)) l

  unfoldable pub low_loop : Num → List Str → Num
  low_loop value [] = value
  low_loop value (item ∷ l) =
      low_loop (if lt (convto_num item) value then convto_num item else value) l

  unfoldable pub high_loop : Num → List Str → Num
  high_loop value [] = value
  high_loop value (item ∷ l) =
      high_loop (if lt value (convto_num item) then convto_num item else value) l
