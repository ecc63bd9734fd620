-- ===== src/Query/Tests.antt =====
-- The theorems on places, numbers and pages at concrete inputs.
use beryldb.Prelude.{
  ℕ, ◌<◌, ◌≡◌, refl, List, [], ◌∷◌, Str, codes, IsBytes, All, length, take, drop, arith,
}
use beryldb.Machine.ℤ.{pos, negsuc}
use beryldb.Convert.{conv_numeric, convto_num}
use beryldb.Convert.Laws.{convto_num-conv_numeric}
use beryldb.Query.Types.{int_key}
use beryldb.Query.Places.{dest_of-injective}
use beryldb.Query.Paging.{iter_limit, page_loop, start}
use beryldb.Query.Paging.Laws.{emitted, emitted-limit, emitted-all}
use beryldb.Query.Paging.Sizes.{IsFull, page_loop-IsPaged}

convto_num-conv_numeric_example : convto_num (conv_numeric 4096) ≡ 4096
convto_num-conv_numeric_example = convto_num-conv_numeric 4096 (omega arith)

key-IsBytes : IsBytes (codes "key")
key-IsBytes = (omega arith, (omega arith, (omega arith, tt)))

dest_of-injective_example : (codes "key" ≡ codes "key") × ◌≡◌ {A = ℕ} 7 7 × (int_key ≡ int_key)
dest_of-injective_example =
    dest_of-injective (codes "key") (codes "key") 7 7 int_key int_key key-IsBytes key-IsBytes refl

abbrev items : List Str
items = codes "a" ∷ codes "b" ∷ codes "c" ∷ []

emitted-limit_example : emitted (page_loop (pos 1) (pos 1) items start) ≡ take 1 (drop 1 items)
emitted-limit_example = emitted-limit 1 1 items (omega arith) (omega arith)

emitted-all_example : emitted (page_loop (pos 0) (negsuc 0) items start) ≡ items
emitted-all_example = emitted-all (pos 0) items

page_loop-IsPaged_example :
    All IsFull (page_loop (pos 0) (negsuc 0) items start).pages
    × (length (page_loop (pos 0) (negsuc 0) items start).result < iter_limit)
page_loop-IsPaged_example = page_loop-IsPaged (pos 0) (negsuc 0) items (omega arith)
