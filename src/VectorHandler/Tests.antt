-- ===== src/VectorHandler/Tests.antt =====
-- The theorems about the vector applied to concrete vectors.
use beryldb.Stl
use beryldb.Handler.Types.{Double}
use beryldb.Handler.Loops.{sum_loop, find_loop, is_numeric_loop, high_loop, low_loop}
use beryldb.Prelude.{
  length, ℕ, str_eq, str_cmp, ◌/◌, refl, true, ltb, ◌+◌, ◌≡◌, [], ◌∷◌, Str, some, str_eq, arith,
}
use beryldb.Machine.{ret}
use beryldb.Stl.{occurrences, mem}
use beryldb.Handler.Types.{ok}
use beryldb.VectorHandler
use beryldb.VectorHandler.{VectorHandler}
use beryldb.VectorHandler.Persist.{IsValid, create-as_string_vector}

abbrev a_b : VectorHandler
a_b = record { mhandler = (b'a' ∷ []) ∷ (b'b' ∷ b'/' ∷ []) ∷ []; last_msg = some ok }

a_b-IsValid : IsValid a_b
a_b-IsValid = record {
  filled = (tt, (tt, tt));
  bytes = ((omega arith, tt), ((omega arith, (omega arith, tt)), tt));
  fits = omega arith;
}

create-as_string_vector_example :
    (VectorHandler.create (VectorHandler.as_string a_b)).mhandler ≡ a_b.mhandler
create-as_string_vector_example = create-as_string_vector a_b a_b-IsValid

a_b-exist : VectorHandler.exist a_b (b'b' ∷ b'/' ∷ []) ≡ true
unfolding VectorHandler.exist mem str_eq str_cmp
a_b-exist = refl

a_b-count : (VectorHandler.count a_b).1 ≡ 2
unfolding VectorHandler.count
a_b-count = refl

-- Doubles that are natural numbers: a text stands for its length.
abbrev sizes : Double
sizes = record {
  Num = ℕ;
  zero = 0;
  add = λ x y. x + y;
  div = λ x y. x / y;
  lt = ltb;
  convto_num = λ (s : Str). length s;
  of_count = λ n. n;
}

a_b-statistics :
    (VectorHandler.sum sizes a_b ≡ 3)
    × (VectorHandler.get_sma sizes a_b ≡ 3 / 2)
    × (VectorHandler.get_high sizes a_b ≡ 2)
    × (VectorHandler.get_low sizes a_b ≡ ret 1)
unfolding VectorHandler.sum VectorHandler.get_sma VectorHandler.get_high VectorHandler.get_low
    sum_loop high_loop low_loop
a_b-statistics = (refl, refl, refl, refl)

a_b-getters : (VectorHandler.get_list a_b ≡ a_b.mhandler) × (VectorHandler.get_last a_b ≡ some ok)
unfolding VectorHandler.get_list VectorHandler.get_last
a_b-getters = (refl, refl)

a_b-pops :
    ((VectorHandler.pop_front a_b).mhandler ≡ (b'b' ∷ b'/' ∷ []) ∷ [])
    × ((VectorHandler.pop_back a_b).mhandler ≡ (b'a' ∷ []) ∷ [])
    × ((VectorHandler.resize a_b 1).mhandler ≡ (b'a' ∷ []) ∷ [])
    × ((VectorHandler.sort (VectorHandler.reverse a_b)).mhandler ≡ a_b.mhandler)
unfolding VectorHandler.pop_front VectorHandler.pop_back VectorHandler.resize VectorHandler.sort
    VectorHandler.reverse Stl.pop_back Stl.resize Stl.sort str_cmp
a_b-pops = (refl, refl, refl, refl)

erased-find : (VectorHandler.find (VectorHandler.erase a_b) (b'*' ∷ [])).1 ≡ []
unfolding VectorHandler.find VectorHandler.erase find_loop
erased-find = refl

erased-is_numeric : VectorHandler.is_numeric (VectorHandler.erase a_b) ≡ true
unfolding VectorHandler.is_numeric VectorHandler.erase is_numeric_loop
erased-is_numeric = refl
