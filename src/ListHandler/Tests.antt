-- ===== src/ListHandler/Tests.antt =====
-- The theorems about the list applied to concrete lists.
use beryldb.Prelude.{
  str_cmp, ◌/◌, refl, true, ℕ, ◌+◌, ◌/◌, ◌≡◌, ◌≢◌, [], ◌∷◌, Str, some, length, str_eq, arith, ltb,
}
use beryldb.Stl.{mem}
use beryldb.Handler.Loops.{sum_loop, find_loop, is_numeric_loop}
use beryldb.Handler.Types.{ok, Double}
use beryldb.Handler.LoopLaws.{IsOrder}
use beryldb.ListHandler
use beryldb.ListHandler.{ListHandler}
use beryldb.ListHandler.Persist.{IsValid, create-as_string, create-IsValid}
use beryldb.ListHandler.Invariant.{Reach, start, call, adds, pops_front, step, Reach-stored}

abbrev a_b_a : ListHandler
a_b_a = record {
  mhandler = (b'a' ∷ []) ∷ (b'b' ∷ b':' ∷ []) ∷ (b'a' ∷ []) ∷ [];
  last_msg = some ok;
}

a_b_a-IsValid : IsValid a_b_a
a_b_a-IsValid = record {
  filled = (tt, (tt, (tt, tt)));
  bytes = ((omega arith, tt), ((omega arith, (omega arith, tt)), ((omega arith, tt), tt)));
  fits = omega arith;
}

create-as_string_example :
    (ListHandler.create (ListHandler.as_string a_b_a)).mhandler ≡ a_b_a.mhandler
create-as_string_example = create-as_string a_b_a a_b_a-IsValid

create-IsValid_example : IsValid (ListHandler.create (b'0' ∷ b'x' ∷ b':' ∷ b'1' ∷ []))
create-IsValid_example = create-IsValid (b'0' ∷ b'x' ∷ b':' ∷ b'1' ∷ []) (omega arith)

a_b_a-Reach : Reach a_b_a (step (step a_b_a (adds (b'c' ∷ []))) pops_front)
a_b_a-Reach = call (call start (adds (b'c' ∷ [])) ((omega arith, tt), omega arith)) pops_front tt

Reach-stored_example :
    (ListHandler.create
      (ListHandler.as_string (step (step a_b_a (adds (b'c' ∷ []))) pops_front))).mhandler
    ≡ (step (step a_b_a (adds (b'c' ∷ []))) pops_front).mhandler
Reach-stored_example = Reach-stored a_b_a-IsValid a_b_a-Reach

a_b_a-nonempty : a_b_a.mhandler ≢ []
a_b_a-nonempty e = cc

-- Doubles that are natural numbers: a text stands for its length, and 0 / 0 is 0.
abbrev lengths : Double
lengths = record {
  Num = ℕ;
  zero = 0;
  add = λ x y. x + y;
  div = λ x y. x / y;
  lt = ltb;
  convto_num = λ (s : Str). length s;
  of_count = λ n. n;
}

lengths-IsOrder : IsOrder lengths
lengths-IsOrder = record {
  irreflexive = λ x. ground arith;
  not_lt_trans = λ x y z h k. ground arith;
  asymmetric = λ x y h. ground arith;
}

a_b_a-exist : ListHandler.exist a_b_a (b'b' ∷ b':' ∷ []) ≡ true
unfolding ListHandler.exist mem str_eq str_cmp
a_b_a-exist = refl

a_b_a-count : (ListHandler.count a_b_a).1 ≡ 3
unfolding ListHandler.count
a_b_a-count = refl

a_b_a-get_sma : ListHandler.get_sma lengths a_b_a ≡ 4 / 3
unfolding ListHandler.get_sma sum_loop
a_b_a-get_sma = refl

a_b_a-getters :
    (ListHandler.get_list a_b_a ≡ a_b_a.mhandler) × (ListHandler.get_last a_b_a ≡ some ok)
unfolding ListHandler.get_list ListHandler.get_last
a_b_a-getters = (refl, refl)

erased-find : (ListHandler.find (ListHandler.erase a_b_a) (b'*' ∷ [])).1 ≡ []
unfolding ListHandler.find ListHandler.erase find_loop
erased-find = refl

erased-is_numeric : ListHandler.is_numeric (ListHandler.erase a_b_a) ≡ true
unfolding ListHandler.is_numeric ListHandler.erase is_numeric_loop
erased-is_numeric = refl
