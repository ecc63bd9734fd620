-- ===== src/Base64.antt =====
-- src/strings.cpp: hexadecimal digits and base 64. A byte is a number below 256; `|` joins bits that are apart,
-- which is `+`.
pub mod Laws
pub mod Tests
use beryldb.Prelude.{
  ℕ, zero, suc, ◌+◌, ◌-◌, ◌*◌, ◌/◌, ◌%◌, ◌^◌, Bool, true, false, ◌&&◌, Option, none, some, List, [],
  ◌∷◌, ◌++◌, Str, codes, is_empty, get_elem?, leb, ltb, ◌==◌, if◌then◌else◌,
}
use beryldb.Machine.{u32_mod}
use beryldb.Nodes.{index_of}

unfoldable pub hex_table : Str
hex_table = codes "0123456789abcdef"

unfoldable pub base_64_table : Str
base_64_table = codes "ABCDEFGHIJKLMNOPQRSTUVWXYZabcdefghijklmnopqrstuvwxyz0123456789+/"

-- `table[i]`; the null character behind the end.
unfoldable pub at : Str → ℕ → ℕ
at table i = elim (get_elem? table i) [ none ↦ 0 | some c ↦ c ]

pub bin_to_hex : Str → Str
unfolding at hex_table
bin_to_hex [] = []
bin_to_hex (c ∷ s) = at hex_table (c / 16) ∷ at hex_table (c % 16) ∷ bin_to_hex s

-- `pad` twice or once, where it is not the null character.
unfoldable pub padding : ℕ → ℕ → Str
padding pad zero = []
padding pad (suc n) = let rest = padding pad n in if pad == 0 then [] else pad ∷ rest

-- The digit of `buffer` from a bit on.
unfoldable pub digit : Str → ℕ → ℕ → ℕ
unfolding at
digit table buffer shift = at table (buffer / 2 ^ shift % 64)

unfoldable pub bin_to_base64 : Str → Str → ℕ → Str
unfolding digit padding
bin_to_base64 table [] pad = []
bin_to_base64 table (a ∷ []) pad =
    let buffer = a * 65536 in digit table buffer 18 ∷ digit table buffer 12 ∷ padding pad 2
bin_to_base64 table (a ∷ b ∷ []) pad =
    let buffer = a * 65536 + b * 256 in
    digit table buffer 18 ∷ digit table buffer 12 ∷ digit table buffer 6 ∷ padding pad 1
bin_to_base64 table (a ∷ b ∷ c ∷ s) pad =
    let buffer = a * 65536 + b * 256 + c in
    digit table buffer 18
    ∷ digit table buffer 12
    ∷ digit table buffer 6
    ∷ digit table buffer 0
    ∷ bin_to_base64 table s pad

-- The loop over the text: it stops at the first character that is no digit.
unfoldable pub from_base64_loop : Str → ℕ → ℕ → Str → Str
from_base64_loop table bitcount buffer [] = []
from_base64_loop table bitcount buffer (c ∷ s) = elim (index_of c table) [
  | none ↦ []
  | some i ↦
      let next = (buffer * 64 + i) % u32_mod in
      let whole =
        next / 2 ^ (bitcount + 6 - 8) % 256 ∷ from_base64_loop table (bitcount + 6 - 8) next s in
      let more = from_base64_loop table (bitcount + 6) next s in
      if ltb i 64 then (if leb 8 (bitcount + 6) then whole else more) else []
]

pub base_64_to_bin : Str → Str → Str
unfolding from_base64_loop
base_64_to_bin table s = from_base64_loop table 0 0 s
