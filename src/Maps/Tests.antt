-- ===== src/Maps/Tests.antt =====
-- The theorems on maps at concrete inputs.
use beryldb.Prelude.{◌≡◌, List, [], ◌∷◌, Str, codes, length, ltb, if◌then◌else◌}
use beryldb.Machine.{ret, fault, dangling}
use beryldb.Machine.ℤ.{pos, negsuc}
use beryldb.Query.Paging.{iter_limit, start}
use beryldb.Maps.{clearing_loop}
use beryldb.Maps.Laws.{held, clearing_loop-outcome}

abbrev fields : List Str
fields = codes "a" ∷ codes "b" ∷ codes "c" ∷ []

clearing_loop-outcome_example :
    held (clearing_loop (pos 0) (negsuc 0) fields start)
    ≡ (if ltb (length fields) iter_limit then ret fields else fault dangling)
clearing_loop-outcome_example = clearing_loop-outcome (pos 0) fields
