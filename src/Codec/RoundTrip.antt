-- ===== src/Codec/RoundTrip.antt =====
-- What `to_bin` writes `to_string` reads back; the loop of `to_string` ends.
use beryldb.Prelude.{
  ℕ, zero, suc, ◌+◌, ◌-◌, ◌*◌, ◌/◌, ◌%◌, ◌^◌, ◌≤◌, ◌<◌, ◌≡◌, refl, ap, ◌∙◌, true, none, some, [],
  ◌∷◌, ◌++◌, Str, IsNonempty, IsBytes, All, All-append, length, arith, inl, inr, ◌==◌, ==_iff,
  holds_below, holds_below_lem, Option-cases, Bool-cases, ◌-◌,
}
use beryldb.Codec.{
  bitset_digits, to_bin, is_bit, skip_space, read_bits, extract_at, extract_bitset, to_string_loop,
  to_string,
}

abbrev pub IsDigit : ℕ → Type 0
IsDigit c = is_bit c ≡ true

-- The number that a list of binary digits stands for, after `acc`.
digits_value : ℕ → Str → ℕ
digits_value acc [] = acc
digits_value acc (c ∷ s) = digits_value (acc * 2 + (c - b'0')) s

read_bits-append :
    (n acc : ℕ) (s rest : Str)
    → length s ≡ n
    → All IsDigit s
    → read_bits n acc (s ++ rest) ≡ (digits_value acc s, rest)
unfolding read_bits digits_value
read_bits-append zero acc [] rest e h = refl
read_bits-append zero acc (c ∷ s) rest e h = absurd (omega arith)
read_bits-append (suc n) acc [] rest e h = absurd (omega arith)
read_bits-append (suc n) acc (c ∷ s) rest e h =
    rw h.0 (read_bits-append n (acc * 2 + (c - b'0')) s rest (omega arith) h.1)

bit-IsDigit : (x : ℕ) → x < 2 → IsDigit (b'0' + x)
bit-IsDigit x h = ground arith

pub bitset_digits-IsDigit : (c k : ℕ) → All IsDigit (bitset_digits k c)
bitset_digits-IsDigit c zero = tt
bitset_digits-IsDigit c (suc k) =
    (bit-IsDigit (c / 2 ^ k % 2) (omega arith), bitset_digits-IsDigit c k)

digits_table : holds_below (λ c. digits_value 0 (bitset_digits 8 c) == c) 256 ≡ true
unfolding holds_below digits_value
digits_table = refl

digits_value-bitset_digits : (c : ℕ) → c < 256 → digits_value 0 (bitset_digits 8 c) ≡ c
digits_value-bitset_digits c h = (==_iff _ c).0 (holds_below_lem _ 256 c digits_table h)

skip_space-digit : (c : ℕ) (s : Str) → IsDigit c → skip_space (c ∷ s) ≡ c ∷ s
unfolding skip_space
skip_space-digit c s h = ground arith

extract-append :
    (c : ℕ) (s rest : Str)
    → length (c ∷ s) ≡ 8
    → All IsDigit (c ∷ s)
    → extract_bitset (c ∷ s ++ rest) ≡ some (digits_value 0 (c ∷ s), rest)
unfolding extract_bitset extract_at
extract-append c s rest e h =
    rw (skip_space-digit c (s ++ rest) h.0, h.0) (ap some (read_bits-append 8 0 (c ∷ s) rest e h))

extract-bitset_digits :
    (c : ℕ) (rest : Str) → c < 256 → extract_bitset (bitset_digits 8 c ++ rest) ≡ some (c, rest)
extract-bitset_digits c rest h =
    extract-append (b'0' + c / 2 ^ 7 % 2) (bitset_digits 7 c) rest refl (bitset_digits-IsDigit c 8)
    ∙ ap (λ (x : ℕ). some (x, rest)) (digits_value-bitset_digits c h)

to_string_loop-to_bin :
    (fuel : ℕ) (s : Str) → IsBytes s → length s ≤ fuel → to_string_loop fuel (to_bin s) ≡ s
unfolding to_string_loop to_bin
to_string_loop-to_bin zero [] h le = refl
to_string_loop-to_bin zero (c ∷ s) h le = absurd (omega arith)
to_string_loop-to_bin (suc fuel) [] h le = unfold extract_bitset extract_at skip_space in refl
to_string_loop-to_bin (suc fuel) (c ∷ s) h le =
    rw (extract-bitset_digits c (to_bin s) h.0, to_string_loop)
      (ap (◌∷◌ c) (to_string_loop-to_bin fuel s h.1 (omega arith)))

pub length-to_bin : (s : Str) → length (to_bin s) ≡ 8 * length s
unfolding to_bin
length-to_bin [] = refl
length-to_bin (c ∷ s) = omega (arith, length-to_bin s)

-- Whatever bytes a text has, decoding its binary form gives the text back.
pub to_string-to_bin : (s : Str) → IsBytes s → to_string (to_bin s) ≡ s
unfolding to_string
to_string-to_bin s h = to_string_loop-to_bin _ s h (omega (arith, length-to_bin s))

pub to_bin-IsDigit : (s : Str) → All IsDigit (to_bin s)
unfolding to_bin
to_bin-IsDigit [] = tt
to_bin-IsDigit (c ∷ s) =
    All-append IsDigit (bitset_digits 8 c) (to_bin s) (bitset_digits-IsDigit c 8) (to_bin-IsDigit s)

-- Termination of the loop of `to_string`.
length-skip_space-le : (s : Str) → length (skip_space s) ≤ length s
unfolding skip_space
length-skip_space-le [] = omega arith
length-skip_space-le (c ∷ s) = ground (arith, length-skip_space-le s)

length-read_bits-le : (n acc : ℕ) (s : Str) → length (read_bits n acc s).1 ≤ length s
unfolding read_bits
length-read_bits-le zero acc s = omega arith
length-read_bits-le (suc n) acc [] = omega arith
length-read_bits-le (suc n) acc (c ∷ s) =
    ground (arith, length-read_bits-le n (acc * 2 + (c - b'0')) s)

length-read_bits-lt :
    (n acc c : ℕ) (s : Str) → IsDigit c → length (read_bits (suc n) acc (c ∷ s)).1 < length (c ∷ s)
unfolding read_bits
length-read_bits-lt n acc c s h = ground (arith, length-read_bits-le n (acc * 2 + (c - b'0')) s)

length-extract_at-lt :
    (s : Str) (c : ℕ) (rest : Str) → extract_at s ≡ some (c, rest) → length rest < length s
unfolding extract_at
length-extract_at-lt [] c rest h = cc
length-extract_at-lt (d ∷ s) c rest h = ground (arith, length-read_bits-lt 7 0 d s)

length-extract_bitset-lt :
    (s : Str) (c : ℕ) (rest : Str) → extract_bitset s ≡ some (c, rest) → length rest < length s
unfolding extract_bitset
length-extract_bitset-lt s c rest h =
    omega (arith, length-extract_at-lt (skip_space s) c rest h, length-skip_space-le s)

extract_bitset-nil : extract_bitset [] ≡ none
unfolding extract_bitset extract_at skip_space
extract_bitset-nil = refl

to_string_loop_fuel :
    (f g : ℕ) (s : Str) → length s ≤ f → length s ≤ g → to_string_loop f s ≡ to_string_loop g s
unfolding to_string_loop
to_string_loop_fuel zero zero s p q = refl
to_string_loop_fuel zero (suc g) [] p q = rw (extract_bitset-nil, to_string_loop)
to_string_loop_fuel zero (suc g) (c ∷ s) p q = absurd (omega arith)
to_string_loop_fuel (suc f) zero [] p q = rw (extract_bitset-nil, to_string_loop)
to_string_loop_fuel (suc f) zero (c ∷ s) p q = absurd (omega arith)
to_string_loop_fuel (suc f) (suc g) s p q = elim (Option-cases (extract_bitset s)) [
  | inl e ↦ rw (e, to_string_loop)
  | inr ((c, rest), e) ↦
      let shorter : length rest < length s = length-extract_bitset-lt s c rest e in
      rw (e, to_string_loop) (ap (◌∷◌ c) (to_string_loop_fuel f g rest (omega arith) (omega arith)))
]

-- Any fuel from the length up gives the result of `to_string`: its loop ends by its own test.
pub to_string_total : (fuel : ℕ) (s : Str) → length s ≤ fuel → to_string_loop fuel s ≡ to_string s
unfolding to_string
to_string_total fuel s h = to_string_loop_fuel fuel (length s) s h (omega arith)

pub to_bin-IsNonempty : (s : Str) → IsNonempty s → IsNonempty (to_bin s)
unfolding to_bin
to_bin-IsNonempty [] h = absurd h
to_bin-IsNonempty (c ∷ s) h = tt

-- One more than the greatest number that `n` more digits after `acc` can give.
digits_cap : ℕ → ℕ → ℕ
digits_cap zero acc = acc + 1
digits_cap (suc n) acc = digits_cap n (acc * 2 + 1)

lt-digits_cap : (n a b : ℕ) → a ≤ b → a < digits_cap n b
unfolding digits_cap
lt-digits_cap zero a b h = omega arith
lt-digits_cap (suc n) a b h = lt-digits_cap n a (b * 2 + 1) (omega arith)

digit-le : (c : ℕ) → IsDigit c → c - b'0' ≤ 1
digit-le c h = ground arith

read_bits-lt : (n acc cap : ℕ) (s : Str) → acc ≤ cap → (read_bits n acc s).0 < digits_cap n cap
unfolding read_bits digits_cap
read_bits-lt zero acc cap s h = omega arith
read_bits-lt (suc n) acc cap [] h = lt-digits_cap n acc (cap * 2 + 1) (omega arith)
read_bits-lt (suc n) acc cap (c ∷ s) h = elim (Bool-cases (is_bit c)) [
  | inl digit ↦
      rw digit
        (read_bits-lt n (acc * 2 + (c - b'0')) (cap * 2 + 1) s (omega (arith, digit-le c digit)))
  | inr other ↦ rw other (lt-digits_cap n acc (cap * 2 + 1) (omega arith))
]

extract_at-lt : (s : Str) (c : ℕ) (rest : Str) → extract_at s ≡ some (c, rest) → c < 256
unfolding extract_at
extract_at-lt [] c rest h = cc
extract_at-lt (d ∷ s) c rest h =
    let low : (read_bits 8 0 (d ∷ s)).0 < 256 =
      unfold digits_cap in read_bits-lt 8 0 0 (d ∷ s) (omega arith) in
    ground arith

to_string_loop-IsBytes : (fuel : ℕ) (s : Str) → IsBytes (to_string_loop fuel s)
unfolding to_string_loop extract_bitset
to_string_loop-IsBytes zero s = tt
to_string_loop-IsBytes (suc fuel) s = elim (Option-cases (extract_at (skip_space s))) [
  | inl e ↦ rw (e, to_string_loop) tt
  | inr ((c, rest), e) ↦
      rw (e, to_string_loop)
        (extract_at-lt (skip_space s) c rest e, to_string_loop-IsBytes fuel rest)
]

-- Whatever it reads, `to_string` gives bytes.
pub to_string-IsBytes : (s : Str) → IsBytes (to_string s)
unfolding to_string
to_string-IsBytes s = to_string_loop-IsBytes (length s) s

pub to_bin-nil : to_bin [] ≡ []
unfolding to_bin
to_bin-nil = refl
