-- ===== src/Match/Tests.antt =====
-- The match on concrete texts.
use beryldb.Prelude.{refl, ◌≡◌, true, false, [], ◌∷◌}
use beryldb.Match.{case_map, c_str, only_stars, second_loop, first_loop, match_fuel, glob}
use beryldb.Match.Plain.{same_text, glob-same_text}

stars :
    (glob (b'a' ∷ b'b' ∷ b'C' ∷ []) (b'*' ∷ b'c' ∷ []) ≡ true)
    × (glob (b'a' ∷ b'b' ∷ []) (b'?' ∷ []) ≡ false)
unfolding glob first_loop second_loop match_fuel c_str only_stars case_map
stars = (refl, refl)

glob-same_text_example :
    glob (b'A' ∷ b'b' ∷ []) (b'a' ∷ b'B' ∷ []) ≡ same_text (b'A' ∷ b'b' ∷ []) (b'a' ∷ b'B' ∷ [])
glob-same_text_example =
    glob-same_text (b'A' ∷ b'b' ∷ []) (b'a' ∷ b'B' ∷ []) (refl, (refl, tt)) (refl, (refl, tt))
      (refl, (refl, tt))
