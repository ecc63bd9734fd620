-- ===== src/Handler/Types.antt =====
-- include/typedefs.h: the last message of a handler; and `double`, which is a parameter.
use beryldb.Prelude.{ℕ, Bool, Str}

pub data HandlerMsg : Type 0 where
  not_found ok invalid : HandlerMsg

-- `double` and its conversions from text and from a count.
pub record Double : Type 1 where
  pub Num : Type 0
  pub zero : Num
  pub add : Num → Num → Num
  pub div : Num → Num → Num
  pub lt : Num → Num → Bool
  pub convto_num : Str → Num
  pub of_count : ℕ → Num
