-- ===== src/Operations/Laws.antt =====
-- What the counts of src/brldb/operation.cpp add up to.
use beryldb.Prelude.{
  ℕ, suc, ◌+◌, ◌<◌, ◌≡◌, ◌∙◌, true, false, List, [], ◌∷◌, Str, length, arith, ◌==◌, Bool-cases, inl,
  inr,
}
use beryldb.Machine.{u32_mod, incr32}
use beryldb.Rocks.{Rocks}
use beryldb.Query.Types.{Query, World}
use beryldb.Query.{check_dest}
use beryldb.Operations.{touch_loop}

-- The loops of TOUCH and NTOUCH over the same keys, from any two counts, add one for each key between them: the
-- two results add up to the two counts and the number of keys, where that sum is below 2 ^ 32.
pub touch_loop-sum :
    (r : Rocks) (q : Query) (w : World r) (a b : ℕ) (tokens : List Str)
    → a + b + length tokens < u32_mod
    → touch_loop r true q w a tokens + touch_loop r false q w b tokens ≡ a + b + length tokens
unfolding touch_loop
touch_loop-sum r q w a b [] h = omega arith
touch_loop-sum r q w a b (token ∷ tokens) h =
    elim (Bool-cases (check_dest r q w q.select_query token q.base_request q.database == 0)) [
      | inl e ↦
          let wrap : incr32 b ≡ suc b = omega arith in
          rw e (rw wrap (touch_loop-sum r q w a (suc b) tokens (omega arith) ∙ omega arith))
      | inr e ↦
          let wrap : incr32 a ≡ suc a = omega arith in
          rw e (rw wrap (touch_loop-sum r q w (suc a) b tokens (omega arith) ∙ omega arith))
    ]
