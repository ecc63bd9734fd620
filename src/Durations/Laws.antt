-- ===== src/Durations/Laws.antt =====
-- A duration comes back from its text.
use beryldb.Prelude.{
  ℕ, ◌+◌, ◌-◌, ◌*◌, ◌/◌, ◌%◌, ◌^◌, ◌≤◌, ◌<◌, ◌≡◌, refl, sym, ap, ◌∙◌, false, some, [], ◌∷◌, ◌++◌,
  Str, All, arith, ◌==◌, ==_iff, Bool-cases, inl, inr,
}
use mathlib.Core.List.{append_assoc, append-nil}
use beryldb.Codec.{is_digit}
use beryldb.Convert.{conv_numeric, read_digits}
use beryldb.Convert.Laws.{IsDecimal, conv_numeric-IsDecimal, read_digits-conv_numeric}
use beryldb.Durations.{u64_mod, num_duration, duration_loop, duration, part, duration_as_string}

read_digits-le : (acc : ℕ) (s : Str) → All IsDecimal s → acc ≤ read_digits acc s
unfolding read_digits
read_digits-le acc [] h = omega arith
read_digits-le acc (c ∷ s) h = rw h.0 (omega (arith, read_digits-le (acc * 10 + (c - b'0')) s h.1))

-- Digits that are read into `subtotal`, where the number stays below 2 ^ 64.
loop-digits :
    (total acc : ℕ) (s t : Str)
    → All IsDecimal s
    → read_digits acc s < u64_mod
    → duration_loop total acc (s ++ t) ≡ duration_loop total (read_digits acc s) t
unfolding duration_loop read_digits
loop-digits total acc [] t h w = refl
loop-digits total acc (c ∷ s) t h w =
    let next = acc * 10 + (c - b'0') in
    let same : read_digits acc (c ∷ s) ≡ read_digits next s = rw h.0 refl in
    let small : next % u64_mod ≡ next = omega (arith, same, read_digits-le next s h.1) in
    rw h.0 (rw small (loop-digits total next s t h.1 (omega (arith, same))))

loop-part :
    (total n unit m : ℕ) (t : Str)
    → is_digit unit ≡ false
    → num_duration unit ≡ m
    → (m == 0) ≡ false
    → total + n * m < u64_mod
    → n < u64_mod
    → duration_loop total 0 (part n unit ++ t) ≡ duration_loop (total + n * m) 0 t
unfolding part duration_loop
loop-part total n unit m t letter e pos w v = elim (Bool-cases (n == 0)) [
  | inl z ↦
      let none_here : total + n * m ≡ total =
        ap (λ k. total + k * m) ((==_iff n 0).0 z) ∙ omega arith in
      rw z (rw none_here refl)
  | inr z ↦
      let small : (total + n * m) % u64_mod ≡ total + n * m = omega (arith, w) in
      rw z (
        ap (duration_loop total 0) (append_assoc (conv_numeric n) (unit ∷ []) t)
        ∙ loop-digits total 0 (conv_numeric n) (unit ∷ t) (conv_numeric-IsDecimal n)
            (rw (read_digits-conv_numeric n) v)
        ∙ rw (read_digits-conv_numeric n) (rw letter (rw e (rw pos (rw small refl)))))
]

loop-end : (total n : ℕ) → total ≡ n → n < u64_mod → duration_loop total 0 [] ≡ some n
unfolding duration_loop
loop-end total n e h = let small : (total + 0) % u64_mod ≡ n = omega (arith, e) in ap some small

duration_parts :
    (n : ℕ)
    → (n / 31449600) * 31557600
        + (n / 604800 % 52) * 604800
        + (n / 86400 % 7) * 86400
        + (n / 3600 % 24) * 3600
        + (n / 60 % 60) * 60
        + (n % 60) * 1
      ≡ n + 108000 * (n / 31449600)
duration_parts n =
    let hours : n / 3600 ≡ n / 60 / 60 = omega arith in
    let days : n / 86400 ≡ n / 60 / 60 / 24 = omega arith in
    let weeks : n / 604800 ≡ n / 60 / 60 / 24 / 7 = omega arith in
    let years : n / 31449600 ≡ n / 60 / 60 / 24 / 7 / 52 = omega arith in
    rw (hours, days, weeks, years) (omega arith)

-- A duration comes back from its text up to the years: the text counts them by 52 weeks and the reader by 365.25 days,
-- so the result is 108000 seconds too long for each year. Below 2 ^ 63, the bound of a time_t.
pub duration-duration_as_string :
    (n : ℕ) → n < 2 ^ 63 → duration (duration_as_string n) ≡ some (n + 108000 * (n / 31449600))
unfolding duration duration_as_string
duration-duration_as_string n h = elim (Bool-cases (n == 0)) [
  | inl z ↦ rw (z, (==_iff n 0).0 z) (unfold duration_loop in refl)
  | inr z ↦
      let y : ℕ = n / 31449600 in
      let k : ℕ = n / 604800 % 52 in
      let d : ℕ = n / 86400 % 7 in
      let u : ℕ = n / 3600 % 24 in
      let m : ℕ = n / 60 % 60 in
      let s : ℕ = n % 60 in
      let all = duration_parts n in
      let t1 : ℕ = 0 + y * 31557600 in
      let t2 : ℕ = t1 + k * 604800 in
      let t3 : ℕ = t2 + d * 86400 in
      let t4 : ℕ = t3 + u * 3600 in
      let t5 : ℕ = t4 + m * 60 in
      rw z (
        loop-part 0 y b'y' 31557600 _ refl refl refl (omega (arith, all)) (omega (arith, all))
        ∙ loop-part t1 k b'w' 604800 _ refl refl refl (omega (arith, all)) (omega (arith, all))
        ∙ loop-part t2 d b'd' 86400 _ refl refl refl (omega (arith, all)) (omega (arith, all))
        ∙ loop-part t3 u b'h' 3600 _ refl refl refl (omega (arith, all)) (omega (arith, all))
        ∙ loop-part t4 m b'm' 60 _ refl refl refl (omega (arith, all)) (omega (arith, all))
        ∙ ap (duration_loop t5 0) (sym (append-nil (part s b's')))
        ∙ loop-part t5 s b's' 1 [] refl refl refl (omega (arith, all)) (omega (arith, all))
        ∙ loop-end (t5 + s * 1) (n + 108000 * y) (omega (arith, all)) (omega (arith, all)))
]
