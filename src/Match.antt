-- ===== src/Match.antt =====
-- src/daemon.cpp: `Daemon::Match`, which compares a text with a mask in which `*` stands for any text
-- and `?` for any byte. A pointer into a C string is the list of the bytes from there to its end.
pub mod Plain
pub mod Tests
use beryldb.Prelude.{
  ℕ, zero, suc, ◌+◌, ◌*◌, Bool, true, false, ◌&&◌, ◌||◌, [], ◌∷◌, Str, is_empty, length, drop, leb,
  ◌==◌, if◌then◌else◌,
}

-- `brld_case_insensitive_map` of src/nodes.cpp: the bytes from A to Z and the three after them go to
-- the byte 32 higher.
unfoldable pub case_map : ℕ → ℕ
case_map c = if leb b'A' c && leb c 93 then c + 32 else c

-- The bytes up to the first NUL, which `c_str` shows.
pub c_str : Str → Str
c_str [] = []
c_str (c ∷ s) = let rest = c_str s in if c == 0 then [] else c ∷ rest

abbrev pub same_byte : ℕ → ℕ → Bool
same_byte w b = case_map w == case_map b || w == b'?'

only_stars : Str → Bool
only_stars [] = true
only_stars (w ∷ ws) = let rest = only_stars ws in if w == b'*' then rest else false

-- while (*base): the mask position, and the two positions to go back to.
second_loop : ℕ → Str → Str → Str → Str → Bool
second_loop zero base wildcard mp cp = false
second_loop (suc fuel) [] wildcard mp cp = only_stars wildcard
second_loop (suc fuel) (b ∷ base) [] mp cp = second_loop fuel cp mp mp (drop 1 cp)
second_loop (suc fuel) (b ∷ base) (w ∷ wildcard) mp cp =
    let star = second_loop fuel (b ∷ base) wildcard wildcard base in
    let forward = second_loop fuel base wildcard mp cp in
    let back = second_loop fuel cp mp mp (drop 1 cp) in
    if w == b'*'
    then (if is_empty wildcard then true else star)
    else if same_byte w b
    then forward
    else back

-- while (*base && *wildcard != '*'): a mismatch here is final.
first_loop : ℕ → Str → Str → Bool
first_loop fuel [] wildcard = second_loop fuel [] wildcard [] []
first_loop fuel (b ∷ base) [] = false
first_loop fuel (b ∷ base) (w ∷ wildcard) =
    let second = second_loop fuel (b ∷ base) (w ∷ wildcard) [] [] in
    let forward = first_loop fuel base wildcard in
    if w == b'*' then second else if same_byte w b then forward else false

match_fuel : Str → Str → ℕ
match_fuel str mask = (length mask + 2) * ((length str + 2) * (length str + 2)) + 1

unfoldable pub glob : Str → Str → Bool
unfolding first_loop second_loop only_stars match_fuel c_str
glob str mask = first_loop (match_fuel (c_str str) (c_str mask)) (c_str str) (c_str mask)
