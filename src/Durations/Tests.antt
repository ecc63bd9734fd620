-- ===== src/Durations/Tests.antt =====
-- Durations at concrete inputs.
use beryldb.Prelude.{◌+◌, ◌*◌, ◌/◌, ◌≡◌, refl, some, none, codes, arith}
use beryldb.Durations.{duration, duration_as_string, duration_loop}
use beryldb.Durations.Laws.{duration-duration_as_string}

duration-duration_as_string_example :
    duration (duration_as_string 31450000) ≡ some (31450000 + 108000 * (31450000 / 31449600))
duration-duration_as_string_example = duration-duration_as_string 31450000 (omega arith)

duration_bad : duration_loop 0 0 (codes "3x") ≡ none
unfolding duration_loop
duration_bad = refl
