-- ===== src/Codec.antt =====
-- include/converter.h: `is_number`, and `to_bin` and `to_string`, the text of zeros and ones in which keys and values
-- are stored. A byte is a number below 256, and std::bitset<8> is that number.
pub mod RoundTrip
pub mod Tests
use beryldb.Prelude.{
  ℕ, zero, suc, ◌+◌, ◌-◌, ◌*◌, ◌/◌, ◌%◌, ◌^◌, Bool, true, false, ◌||◌, ◌&&◌, Option, none, some,
  List, [], ◌∷◌, ◌++◌, Str, length, leb, ◌==◌, if◌then◌else◌,
}
use beryldb.Machine.{incr32}

-- The digits of a bitset of `w` bits, the highest first.
abbrev pub bitset_digits : ℕ → ℕ → Str
bitset_digits zero c = []
bitset_digits (suc k) c = (b'0' + c / 2 ^ k % 2) ∷ bitset_digits k c

pub to_bin : Str → Str
to_bin [] = []
to_bin (c ∷ s) = bitset_digits 8 c ++ to_bin s

abbrev pub is_bit : ℕ → Bool
is_bit c = c == b'0' || c == b'1'

-- std::isspace in the C locale.
abbrev pub is_space : ℕ → Bool
is_space c = c == 32 || (leb 9 c && leb c 13)

unfoldable pub skip_space : Str → Str
skip_space [] = []
skip_space (c ∷ s) = let rest = skip_space s in if is_space c then rest else c ∷ s

-- `sstream >> bits`: white space is skipped, then up to eight digits are read; it fails where there
-- is none.
read_bits : ℕ → ℕ → Str → ℕ × Str
read_bits zero acc s = (acc, s)
read_bits (suc n) acc [] = (acc, [])
read_bits (suc n) acc (c ∷ s) =
    let rest = read_bits n (acc * 2 + (c - b'0')) s in if is_bit c then rest else (acc, c ∷ s)

extract_at : Str → Option (ℕ × Str)
extract_at [] = none
extract_at (c ∷ s) = if is_bit c then some (read_bits 8 0 (c ∷ s)) else none

extract_bitset : Str → Option (ℕ × Str)
extract_bitset s = extract_at (skip_space s)

pub to_string_loop : ℕ → Str → Str
to_string_loop zero s = []
to_string_loop (suc fuel) s = elim (extract_bitset s) [
  | none ↦ []
  | some (c, rest) ↦ c ∷ to_string_loop fuel rest
]

-- Each round takes a character at least, so the length is fuel enough.
pub to_string : Str → Str
to_string s = to_string_loop (length s) s

abbrev pub is_digit : ℕ → Bool
is_digit c = leb b'0' c && leb c b'9'

is_number_loop : Bool → ℕ → Str → Bool
is_number_loop allowdots counter [] = true
is_number_loop allowdots counter (c ∷ s) =
    let same = is_number_loop allowdots counter s in
    let next = is_number_loop allowdots (incr32 counter) s in
    if counter == 0 && (c == b'-' || c == b'+')
    then same
    else if allowdots && (c == b',' || c == b'.' || c == b'+' || c == b'e')
    then next
    else if is_digit c
    then next
    else false

pub is_number : Str → Bool → Bool
unfolding is_number_loop
is_number str allowdots = is_number_loop allowdots 0 str
