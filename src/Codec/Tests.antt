-- ===== src/Codec/Tests.antt =====
-- The theorems about the stored text applied to concrete texts.
use beryldb.Prelude.{refl, true, false, ◌≡◌, [], ◌∷◌, arith}
use beryldb.Codec.{is_number, is_number_loop, to_bin, to_string, to_string_loop}
use beryldb.Codec.RoundTrip.{to_string-to_bin, to_string_total}

to_string-to_bin_example : to_string (to_bin (0 ∷ b'a' ∷ 255 ∷ [])) ≡ 0 ∷ b'a' ∷ 255 ∷ []
to_string-to_bin_example =
    to_string-to_bin (0 ∷ b'a' ∷ 255 ∷ []) (omega arith, (omega arith, (omega arith, tt)))

to_string_total_example :
    to_string_loop 7 (b'1' ∷ b'0' ∷ b'x' ∷ b'1' ∷ []) ≡ to_string (b'1' ∷ b'0' ∷ b'x' ∷ b'1' ∷ [])
to_string_total_example = to_string_total 7 (b'1' ∷ b'0' ∷ b'x' ∷ b'1' ∷ []) (omega arith)

numbers :
    (is_number (b'-' ∷ b'1' ∷ b'2' ∷ []) false ≡ true)
    × (is_number (b'1' ∷ b'.' ∷ b'2' ∷ []) false ≡ false)
    × (is_number (b'1' ∷ b'.' ∷ b'2' ∷ []) true ≡ true)
unfolding is_number is_number_loop
numbers = (refl, refl, refl)
