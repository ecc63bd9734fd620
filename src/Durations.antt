-- ===== src/Durations.antt =====
-- src/daemon.cpp: `Daemon::Duration`, `IsValidDuration` and `duration_as_string`. An unsigned long has 64 bits.
pub mod Laws
pub mod Tests
use beryldb.Prelude.{
  ℕ, zero, suc, ◌+◌, ◌-◌, ◌*◌, ◌/◌, ◌%◌, ◌^◌, Bool, true, false, ◌&&◌, Option, none, some, List, [],
  ◌∷◌, ◌++◌, Str, codes, leb, ◌==◌, if◌then◌else◌,
}
use beryldb.Codec.{is_digit}
use beryldb.Convert.{conv_numeric}

abbrev pub u64_mod : ℕ
u64_mod = 2 ^ 64

-- The table of multipliers, 0 where a character is no unit.
unfoldable pub num_duration : ℕ → ℕ
num_duration c =
    if c == b'y'
    then 31557600
    else if c == b'Y'
    then 31557600
    else if c == b'w'
    then 604800
    else if c == b'W'
    then 604800
    else if c == b'd'
    then 86400
    else if c == b'D'
    then 86400
    else if c == b'h'
    then 3600
    else if c == b'H'
    then 3600
    else if c == b'm'
    then 60
    else if c == b'M'
    then 60
    else if c == b's'
    then 1
    else if c == b'S'
    then 1
    else 0

-- The loop of `Duration` over the text: `total` and `subtotal`.
unfoldable pub duration_loop : ℕ → ℕ → Str → Option ℕ
unfolding num_duration
duration_loop total subtotal [] = some ((total + subtotal) % u64_mod)
duration_loop total subtotal (c ∷ s) =
    let digit = duration_loop total ((subtotal * 10 + (c - b'0')) % u64_mod) s in
    let unit = duration_loop ((total + subtotal * num_duration c) % u64_mod) 0 s in
    if is_digit c then digit else if num_duration c == 0 then none else unit

pub duration : Str → Option ℕ
unfolding duration_loop
duration s = duration_loop 0 0 s

-- The overload that gives 0 where the text is not valid.
pub duration_or_zero : Str → ℕ
unfolding duration
duration_or_zero s = elim (duration s) [ none ↦ 0 | some n ↦ n ]

pub is_valid_duration : Str → Bool
unfolding num_duration
is_valid_duration [] = true
is_valid_duration (c ∷ s) =
    let rest = is_valid_duration s in
    if is_digit c then rest else if num_duration c == 0 then false else rest

-- A number with its unit, where it is not zero.
unfoldable pub part : ℕ → ℕ → Str
part n unit = if n == 0 then [] else conv_numeric n ++ unit ∷ []

-- A time that is not negative.
pub duration_as_string : ℕ → Str
unfolding part
duration_as_string n =
    if n == 0
    then codes "0s"
    else (part (n / 31449600) b'y'
        ++ (part (n / 604800 % 52) b'w'
            ++ (part (n / 86400 % 7) b'd'
                ++ (part (n / 3600 % 24) b'h' ++ (part (n / 60 % 60) b'm' ++ part (n % 60) b's')))))
