-- ===== src/Convert.antt =====
-- include/converter.h: numbers to text and back. `convto_string` of an unsigned int prints it to a
-- stringstream, `conv_numeric` writes the digits by a loop of its own; `convto_num` reads from one.
pub mod Laws
use beryldb.Prelude.{
  ℕ, zero, suc, ◌+◌, ◌-◌, ◌*◌, ◌/◌, ◌%◌, ◌^◌, Bool, true, false, Option, none, some, List, [], ◌∷◌,
  reverse, Str, leb, ltb, ◌==◌, if◌then◌else◌,
}
use beryldb.Codec.{skip_space, is_digit}
use beryldb.Machine.{u32_mod, ℤ}
use beryldb.Machine.ℤ.{pos, negsuc}

-- while (quotient): the digits, the lowest first. The loop ends since a round makes the number smaller.
pub conv_loop : ℕ → ℕ → Str
conv_loop zero quotient = []
conv_loop (suc fuel) quotient =
    let rest = conv_loop fuel (quotient / 10) in
    if quotient == 0 then [] else (b'0' + quotient % 10) ∷ rest

-- A number that is not negative.
pub conv_numeric : ℕ → Str
conv_numeric n = if n == 0 then b'0' ∷ [] else reverse (conv_loop n n)

-- The digits that are read, and whether there was one.
unfoldable pub read_digits : ℕ → Str → ℕ
read_digits acc [] = acc
read_digits acc (c ∷ s) =
    let rest = read_digits (acc * 10 + (c - b'0')) s in if is_digit c then rest else acc

abbrev pub starts_digit : Str → Bool
starts_digit [] = false
starts_digit (c ∷ s) = is_digit c

-- A value out of range makes the extraction fail; a minus sign negates in the unsigned type.
pub read_unsigned : Bool → Str → ℕ
unfolding read_digits
read_unsigned negative s =
    let n = read_digits 0 s in
    if starts_digit s
    then (if ltb n u32_mod then (if negative then (u32_mod - n) % u32_mod else n) else 0)
    else 0

pub read_sign : Str → ℕ
unfolding read_unsigned
read_sign [] = 0
read_sign (c ∷ s) =
    if c == b'-'
    then read_unsigned true s
    else if c == b'+'
    then read_unsigned false s
    else read_unsigned false (c ∷ s)

-- `convto_num<unsigned int>`.
pub convto_num : Str → ℕ
unfolding read_sign
convto_num s = read_sign (skip_space s)

-- The value of a signed int, 0 where it is out of range.
pub signed_value : Bool → ℕ → ℤ
signed_value true zero = pos 0
signed_value true (suc n) = if ltb n (2 ^ 31) then negsuc n else pos 0
signed_value false n = if ltb n (2 ^ 31) then pos n else pos 0

pub read_signed : Str → ℤ
unfolding read_digits signed_value
read_signed [] = pos 0
read_signed (c ∷ s) =
    let digits = λ (b : Bool).
      λ (t : Str). if starts_digit t then signed_value b (read_digits 0 t) else pos 0 in
    if c == b'-' then digits true s else if c == b'+' then digits false s else digits false (c ∷ s)

-- `convto_num<signed int>`.
pub convto_signed : Str → ℤ
unfolding read_signed
convto_signed s = read_signed (skip_space s)
