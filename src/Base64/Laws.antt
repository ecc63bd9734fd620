-- ===== src/Base64/Laws.antt =====
-- A text of bytes comes back from base 64.
use beryldb.Prelude.{
  ℕ, zero, suc, ◌+◌, ◌-◌, ◌*◌, ◌/◌, ◌%◌, ◌^◌, ◌≤◌, ◌<◌, ◌≡◌, refl, ap, ap₂, ◌∙◌, Bool, true, false,
  Option, none, some, [], ◌∷◌, Str, IsBytes, arith, ltb, leb, Bool-cases, inl, inr, ◌==◌,
  holds_below, holds_below_lem,
}
use beryldb.Machine.{u32_mod}
use beryldb.Nodes.{index_of}
use beryldb.Base64.{
  base_64_table, at, digit, padding, bin_to_base64, from_base64_loop, base_64_to_bin,
}

-- Each digit is found at its place in the table.
abbrev is_found : ℕ → Bool
is_found i = elim (index_of (at base_64_table i) base_64_table) [ none ↦ false | some j ↦ j == i ]

digits-table : holds_below is_found 64 ≡ true
unfolding holds_below index_of at base_64_table
digits-table = refl

same-found :
    (o : Option ℕ) (i : ℕ)
    → (elim o as (λ x. Bool) [ none ↦ false | some j ↦ j == i ]) ≡ true
    → o ≡ some i
same-found none i h = absurd (cc h)
same-found (some j) i h = ground arith

index-at : (i : ℕ) → i < 64 → index_of (at base_64_table i) base_64_table ≡ some i
index-at i h =
    same-found (index_of (at base_64_table i) base_64_table) i
      (holds_below_lem is_found 64 i digits-table h)

-- What the loop makes of the next digit.
step-more :
    (bitcount buffer i : ℕ) (s : Str)
    → i < 64
    → bitcount < 2
    → from_base64_loop base_64_table bitcount buffer (at base_64_table i ∷ s)
      ≡ from_base64_loop base_64_table (bitcount + 6) ((buffer * 64 + i) % u32_mod) s
unfolding from_base64_loop
step-more bitcount buffer i s h b =
    let small : ltb i 64 ≡ true = ground arith in
    let few : leb 8 (bitcount + 6) ≡ false = ground arith in
    rw (index-at i h, from_base64_loop) (rw small (rw few refl))

step-whole :
    (bitcount buffer i : ℕ) (s : Str)
    → i < 64
    → 2 ≤ bitcount
    → from_base64_loop base_64_table bitcount buffer (at base_64_table i ∷ s)
      ≡ ((buffer * 64 + i) % u32_mod / 2 ^ (bitcount + 6 - 8) % 256)
        ∷ from_base64_loop base_64_table (bitcount + 6 - 8) ((buffer * 64 + i) % u32_mod) s
unfolding from_base64_loop
step-whole bitcount buffer i s h b =
    let small : ltb i 64 ≡ true = ground arith in
    let enough : leb 8 (bitcount + 6) ≡ true = ground arith in
    rw (index-at i h, from_base64_loop) (rw small (rw enough refl))

-- The bytes that four digits hold, whatever is left in the buffer.
byte_one :
    (x i j : ℕ)
    → i < 64
    → j < 64
    → ((x * 64 + i) % u32_mod * 64 + j) % u32_mod / 16 % 256 ≡ i * 4 + j / 16
byte_one x i j h k = omega arith

byte_two :
    (x j l : ℕ)
    → l < 64
    → ((x * 64 + j) % u32_mod * 64 + l) % u32_mod / 4 % 256 ≡ j % 16 * 16 + l / 4
byte_two x j l h = omega arith

byte_three :
    (x l m : ℕ) → m < 64 → ((x * 64 + l) % u32_mod * 64 + m) % u32_mod / 1 % 256 ≡ l % 4 * 64 + m
byte_three x l m h = omega arith

abbrev loop : ℕ → ℕ → Str → Str
loop bitcount buffer s = from_base64_loop base_64_table bitcount buffer s

-- The buffer behind a digit.
abbrev next : ℕ → ℕ → ℕ
next x i = (x * 64 + i) % u32_mod

two_digits :
    (x i j : ℕ) (t : Str)
    → i < 64
    → j < 64
    → loop 0 x (at base_64_table i ∷ at base_64_table j ∷ t)
      ≡ (i * 4 + j / 16) ∷ loop 4 (next (next x i) j) t
two_digits x i j t h k =
    step-more 0 x i (at base_64_table j ∷ t) h (omega arith)
    ∙ step-whole 6 (next x i) j t k (omega arith)
    ∙ ap (λ b. b ∷ loop 4 (next (next x i) j) t) (byte_one x i j h k)

third_digit :
    (x j l : ℕ) (t : Str)
    → l < 64
    → loop 4 (next x j) (at base_64_table l ∷ t)
      ≡ (j % 16 * 16 + l / 4) ∷ loop 2 (next (next x j) l) t
third_digit x j l t h =
    step-whole 4 (next x j) l t h (omega arith)
    ∙ ap (λ b. b ∷ loop 2 (next (next x j) l) t) (byte_two x j l h)

last_digit :
    (x l m : ℕ) (t : Str)
    → m < 64
    → loop 2 (next x l) (at base_64_table m ∷ t) ≡ (l % 4 * 64 + m) ∷ loop 0 (next (next x l) m) t
last_digit x l m t h =
    step-whole 2 (next x l) m t h (omega arith)
    ∙ ap (λ b. b ∷ loop 0 (next (next x l) m) t) (byte_three x l m h)

-- The digits of three bytes hold them.
group :
    (a b c : ℕ)
    → a < 256
    → b < 256
    → c < 256
    → (let n : ℕ = a * 65536 + b * 256 + c in
        ((n / 2 ^ 18 % 64) * 4 + (n / 2 ^ 12 % 64) / 16 ≡ a)
        × ((n / 2 ^ 12 % 64) % 16 * 16 + (n / 2 ^ 6 % 64) / 4 ≡ b)
        × ((n / 2 ^ 6 % 64) % 4 * 64 + (n / 2 ^ 0 % 64) ≡ c))
group a b c ha hb hc = (omega arith, omega arith, omega arith)

module _ (pad : ℕ) (no_digit : index_of pad base_64_table ≡ none) where
  -- The padding stops the loop.
  loop-padding : (bitcount buffer n : ℕ) → loop bitcount buffer (padding pad n) ≡ []
  unfolding padding from_base64_loop
  loop-padding bitcount buffer zero = refl
  loop-padding bitcount buffer (suc n) = elim (Bool-cases (pad == 0)) [
    | inl z ↦ rw z refl
    | inr z ↦ rw z (rw (no_digit, from_base64_loop) refl)
  ]

  loop-bin_to_base64 :
      (x : ℕ) (s : Str) → IsBytes s → loop 0 x (bin_to_base64 base_64_table s pad) ≡ s
  unfolding bin_to_base64 digit
  loop-bin_to_base64 x [] b = unfold from_base64_loop in refl
  loop-bin_to_base64 x (a ∷ []) b =
      let n : ℕ = a * 65536 in
      let i : ℕ = n / 2 ^ 18 % 64 in
      let j : ℕ = n / 2 ^ 12 % 64 in
      let ea : i * 4 + j / 16 ≡ a = omega (arith, b.0) in
      two_digits x i j (padding pad 2) (omega arith) (omega arith)
      ∙ ap₂ (λ c t. c ∷ t) ea (loop-padding 4 (next (next x i) j) 2)
  loop-bin_to_base64 x (a ∷ b ∷ []) h =
      let n : ℕ = a * 65536 + b * 256 in
      let i : ℕ = n / 2 ^ 18 % 64 in
      let j : ℕ = n / 2 ^ 12 % 64 in
      let l : ℕ = n / 2 ^ 6 % 64 in
      let x2 = next (next x i) j in
      let ea : i * 4 + j / 16 ≡ a = omega (arith, h.0, h.1.0) in
      let eb : j % 16 * 16 + l / 4 ≡ b = omega (arith, h.0, h.1.0) in
      let t = padding pad 1 in
      two_digits x i j (at base_64_table l ∷ t) (omega arith) (omega arith)
      ∙ ap₂ (λ c t. c ∷ t) ea
          (third_digit (next x i) j l t (omega arith)
            ∙ ap₂ (λ c t. c ∷ t) eb (loop-padding 2 (next x2 l) 1))
  loop-bin_to_base64 x (a ∷ b ∷ c ∷ s) h =
      let n : ℕ = a * 65536 + b * 256 + c in
      let i : ℕ = n / 2 ^ 18 % 64 in
      let j : ℕ = n / 2 ^ 12 % 64 in
      let l : ℕ = n / 2 ^ 6 % 64 in
      let m : ℕ = n / 2 ^ 0 % 64 in
      let x2 = next (next x i) j in
      let (ea, eb, ec) = group a b c h.0 h.1.0 h.1.1.0 in
      let t = bin_to_base64 base_64_table s pad in
      two_digits x i j (at base_64_table l ∷ at base_64_table m ∷ t) (omega arith) (omega arith)
      ∙ ap₂ (λ c t. c ∷ t) ea
          (third_digit (next x i) j l (at base_64_table m ∷ t) (omega arith)
            ∙ ap₂ (λ c t. c ∷ t) eb
                (last_digit x2 l m t (omega arith)
                  ∙ ap₂ (λ c t. c ∷ t) ec (loop-bin_to_base64 (next (next x2 l) m) s h.1.1.1)))

  -- A text of bytes comes back from base 64 with the default table, with or without padding, where the character
  -- that pads is no digit.
  pub base_64_to_bin-bin_to_base64 :
      (s : Str) → IsBytes s → base_64_to_bin base_64_table (bin_to_base64 base_64_table s pad) ≡ s
  unfolding base_64_to_bin
  base_64_to_bin-bin_to_base64 s b = loop-bin_to_base64 0 s b
