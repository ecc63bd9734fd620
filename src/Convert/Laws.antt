-- ===== src/Convert/Laws.antt =====
-- Numbers come back from their text, and the text has no separator.
use beryldb.Prelude.{
  ℕ, zero, suc, ◌+◌, ◌-◌, ◌*◌, ◌/◌, ◌≤◌, ◌<◌, ◌≡◌, refl, sym, ap, ◌∙◌, Bool, true, false, [], ◌∷◌,
  ◌++◌, reverse, Str, All, All-append, arith, ◌==◌, Bool-cases, List-cases, subst, IsNonempty, inl,
  inr,
}
use mathlib.Core.List.{reverse-reverse, reverse-cons}
use beryldb.Codec.{is_digit}
use beryldb.Nodes.Split.{Lacks}
use beryldb.Codec.{skip_space}
use beryldb.Machine.{u32_mod}
use beryldb.Convert.{conv_loop, conv_numeric, convto_num, read_digits, read_unsigned, read_sign}

-- The number whose digits these are, the lowest first.
value_of : Str → ℕ
value_of [] = 0
value_of (c ∷ s) = (c - b'0') + 10 * value_of s

value_of-conv_loop : (fuel n : ℕ) → n ≤ fuel → value_of (conv_loop fuel n) ≡ n
unfolding value_of conv_loop
value_of-conv_loop zero n h = omega arith
value_of-conv_loop (suc fuel) n h = elim (Bool-cases (n == 0)) [
  | inl done ↦ ground arith
  | inr more ↦ rw more (omega (arith, value_of-conv_loop fuel (n / 10) (ground arith)))
]

value_of-conv_numeric : (n : ℕ) → value_of (reverse (conv_numeric n)) ≡ n
unfolding conv_numeric
value_of-conv_numeric n = elim (Bool-cases (n == 0)) [
  | inl e ↦ rw e (unfold value_of in ground arith)
  | inr e ↦ rw (e, reverse-reverse (conv_loop n n)) (value_of-conv_loop n n (omega arith))
]

pub conv_numeric-injective : (n m : ℕ) → conv_numeric n ≡ conv_numeric m → n ≡ m
conv_numeric-injective n m e =
    sym (value_of-conv_numeric n) ∙ ap (λ s. value_of (reverse s)) e ∙ value_of-conv_numeric m

abbrev pub IsDecimal : ℕ → Type 0
IsDecimal c = is_digit c ≡ true

conv_loop-IsDecimal : (fuel n : ℕ) → All IsDecimal (conv_loop fuel n)
unfolding conv_loop
conv_loop-IsDecimal zero n = tt
conv_loop-IsDecimal (suc fuel) n = ground (arith, conv_loop-IsDecimal fuel (n / 10))

reverse-IsDecimal : (s : Str) → All IsDecimal s → All IsDecimal (reverse s)
reverse-IsDecimal [] h = tt
reverse-IsDecimal (c ∷ s) h =
    rw (reverse-cons c s)
      (All-append IsDecimal (reverse s) (c ∷ []) (reverse-IsDecimal s h.1) (h.0, tt))

pub conv_numeric-IsDecimal : (n : ℕ) → All IsDecimal (conv_numeric n)
unfolding conv_numeric
conv_numeric-IsDecimal n = elim (Bool-cases (n == 0)) [
  | inl e ↦ rw e (refl, tt)
  | inr e ↦ rw e (reverse-IsDecimal (conv_loop n n) (conv_loop-IsDecimal n n))
]

decimals-Lacks : (s : Str) → All IsDecimal s → Lacks b':' s
decimals-Lacks [] h = tt
decimals-Lacks (c ∷ s) h = (ground arith, decimals-Lacks s h.1)

pub conv_numeric-Lacks : (n : ℕ) → Lacks b':' (conv_numeric n)
conv_numeric-Lacks n = decimals-Lacks (conv_numeric n) (conv_numeric-IsDecimal n)

read_digits-append :
    (acc : ℕ) (s : Str) (c : ℕ)
    → All IsDecimal s
    → IsDecimal c
    → read_digits acc (s ++ c ∷ []) ≡ read_digits acc s * 10 + (c - b'0')
unfolding read_digits
read_digits-append acc [] c h d = ground arith
read_digits-append acc (x ∷ s) c h d = rw h.0 (read_digits-append (acc * 10 + (x - b'0')) s c h.1 d)

read_digits-reverse : (s : Str) → All IsDecimal s → read_digits 0 (reverse s) ≡ value_of s
unfolding read_digits value_of
read_digits-reverse [] h = refl
read_digits-reverse (c ∷ s) h = rw (reverse-cons c s) (
    read_digits-append 0 (reverse s) c (reverse-IsDecimal s h.1) h.0
    ∙ rw (read_digits-reverse s h.1) (omega arith))

pub read_digits-conv_numeric : (n : ℕ) → read_digits 0 (conv_numeric n) ≡ n
read_digits-conv_numeric n =
    ap (read_digits 0) (sym (reverse-reverse (conv_numeric n)))
    ∙ read_digits-reverse (reverse (conv_numeric n))
        (reverse-IsDecimal _ (conv_numeric-IsDecimal n))
    ∙ value_of-conv_numeric n

-- A text of digits is read as it stands.
convto_num-digits :
    (c : ℕ) (s : Str)
    → All IsDecimal (c ∷ s)
    → read_digits 0 (c ∷ s) < u32_mod
    → convto_num (c ∷ s) ≡ read_digits 0 (c ∷ s)
unfolding convto_num read_sign read_unsigned skip_space
convto_num-digits c s h w = ground arith

-- A number below 2^32 is read back from the text that is written of it.
pub convto_num-conv_numeric : (n : ℕ) → n < u32_mod → convto_num (conv_numeric n) ≡ n
convto_num-conv_numeric n w =
    let digits = read_digits-conv_numeric n in
    elim (List-cases (conv_numeric n)) [
      | inl e ↦ rw e (
          unfold convto_num read_sign skip_space read_digits in ap (read_digits 0) (sym e) ∙ digits)
      | inr (c, s, e) ↦
          rw e (
            convto_num-digits c s (subst (All IsDecimal) e (conv_numeric-IsDecimal n))
              (ground arith))
          ∙ ap (read_digits 0) (sym e)
          ∙ digits
    ]

conv_numeric-zero : conv_numeric 0 ≡ b'0' ∷ []
unfolding conv_numeric
conv_numeric-zero = refl

cons_nil : {c : ℕ} {s : Str} → c ∷ s ≡ [] → ⊥
cons_nil e = cc

pub conv_numeric-IsNonempty : (n : ℕ) → IsNonempty (conv_numeric n)
conv_numeric-IsNonempty n = elim (List-cases (conv_numeric n)) [
  | inl e ↦
      let z : n ≡ 0 = sym (read_digits-conv_numeric n) ∙ rw e (unfold read_digits in refl) in
      absurd (cons_nil (sym conv_numeric-zero ∙ sym (ap conv_numeric z) ∙ e))
  | inr (c, s, e) ↦ rw e tt
]

read_unsigned-lt : (negative : Bool) (s : Str) → read_unsigned negative s < u32_mod
unfolding read_unsigned
read_unsigned-lt true s = ground arith
read_unsigned-lt false s = ground arith

read_sign-lt : (s : Str) → read_sign s < u32_mod
unfolding read_sign
read_sign-lt [] = omega arith
read_sign-lt (c ∷ s) =
    ground
      (arith, read_unsigned-lt true s, read_unsigned-lt false s, read_unsigned-lt false (c ∷ s))

-- Whatever the text is, the number fits an unsigned int.
pub convto_num-lt : (s : Str) → convto_num s < u32_mod
unfolding convto_num
convto_num-lt s = read_sign-lt (skip_space s)
