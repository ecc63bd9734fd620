-- ===== src/Match/Plain.antt =====
-- Masks without a wildcard.
use beryldb.Prelude.{
  ℕ, suc, ◌+◌, ◌*◌, ◌≡◌, refl, Bool, true, false, ◌||◌, [], ◌∷◌, Str, All, length, ◌==◌,
  if◌then◌else◌, arith,
}
use beryldb.Match.{
  case_map, c_str, same_byte, only_stars, second_loop, first_loop, match_fuel, glob,
}

-- The texts are equal under the case map.
unfoldable pub same_text : Str → Str → Bool
same_text [] [] = true
same_text [] (d ∷ t) = false
same_text (c ∷ s) [] = false
same_text (c ∷ s) (d ∷ t) =
    let rest = same_text s t in if case_map d == case_map c then rest else false

-- The byte of a mask stands for itself.
abbrev pub IsPlain : ℕ → Type 0
IsPlain c = (c == b'*' || c == b'?') ≡ false

abbrev pub IsNotNul : ℕ → Type 0
IsNotNul c = (c == 0) ≡ false

c_str_lem : (s : Str) → All IsNotNul s → c_str s ≡ s
unfolding c_str
c_str_lem [] h = refl
c_str_lem (c ∷ s) h = ground (arith, c_str_lem s h.1)

first_loop-same_text :
    (fuel : ℕ) (str mask : Str)
    → All IsPlain mask
    → first_loop (suc fuel) str mask ≡ same_text str mask
unfolding first_loop second_loop only_stars same_text
first_loop-same_text fuel [] [] h = refl
first_loop-same_text fuel [] (w ∷ mask) h = ground arith
first_loop-same_text fuel (b ∷ str) [] h = refl
first_loop-same_text fuel (b ∷ str) (w ∷ mask) h =
    let no_star : (w == b'*') ≡ false = ground (arith, h.0) in
    let no_any : (w == b'?') ≡ false = ground (arith, h.0) in
    let same : same_byte w b ≡ (case_map w == case_map b) = ground (arith, no_any) in
    rw (no_star, same, first_loop-same_text fuel str mask h.1) refl

plus_one : (n : ℕ) → n + 1 ≡ suc n
plus_one n = omega arith

-- On a text and a mask without NUL, a mask that holds neither `*` nor `?` matches exactly the texts
-- that are equal to it under the case map.
pub glob-same_text :
    (str mask : Str)
    → All IsNotNul str
    → All IsNotNul mask
    → All IsPlain mask
    → glob str mask ≡ same_text str mask
unfolding glob match_fuel
glob-same_text str mask s m p =
    let fuel = (length mask + 2) * ((length str + 2) * (length str + 2)) in
    let enough : match_fuel str mask ≡ suc fuel = plus_one fuel in
    rw (c_str_lem str s, c_str_lem mask m, enough) (first_loop-same_text fuel str mask p)
