-- ===== src/Base/Text/Numbers.antt =====
-- Numbers in decimal, printed and read back.
use mathlib.Core.List.{append-nil, append_assoc}
use Prim.Native.Nat.{ℕ, zero, suc, ◌+◌, ◌-◌, ◌*◌, ◌/◌, ◌%◌, ◌<◌}
use mathlib.Core.Bool.{Bool, true, false}
use mathlib.Core.List.{[], ◌∷◌, ◌++◌}
use mathlib.Core.Logic.{◌≢◌, inl, inr}
use mathlib.Core.Option.{some}
use mathlib.Core.Path.{◌≡◌, refl, ap, ◌∙◌}
use native.Mathlib.Omega.{arith}
use jsonrpsee.Base.Lists.{all_of, length, length-append}
use jsonrpsee.Base.Tests.{ltb, Bool-cases}
use jsonrpsee.Base.Text.{
  Text, is_digit, parse_digits, parse_unsigned, decimal_loop, decimal, to_lowercase, lacks,
}

parse_digits-digit :
    (limit acc d m : ℕ) (s : Text)
    → d < 10
    → acc * 10 + d ≡ m
    → m < limit
    → parse_digits limit acc ((48 + d) ∷ s) ≡ parse_digits limit m s
unfolding parse_digits
parse_digits-digit limit acc d m s h e l = ground arith

parse_digits-decimal_loop :
    (limit f n : ℕ) (s : Text)
    → n < f
    → n < limit
    → parse_digits limit 0 (decimal_loop f n ++ s) ≡ parse_digits limit n s
unfolding decimal_loop
parse_digits-decimal_loop limit zero n s h l = elim h [ ]
parse_digits-decimal_loop limit (suc f) n s h l = elim (Bool-cases (ltb n 10)) [
  | inl q ↦ rw q (parse_digits-digit limit 0 n n s (ground (arith, q)) (omega arith) l)
  | inr q ↦
      rw (q, append_assoc (decimal_loop f (n / 10)) ((48 + n % 10) ∷ []) s)
        (parse_digits-decimal_loop limit f (n / 10) ((48 + n % 10) ∷ s) (ground (arith, q))
            (ground (arith, q))
          ∙ parse_digits-digit limit (n / 10) (n % 10) n s (omega arith) (omega arith) l)
]

all_of-append :
    (f : ℕ → Bool) (s t : Text) → all_of f s ≡ true → all_of f t ≡ true → all_of f (s ++ t) ≡ true
all_of-append f [] t h k = k
all_of-append f (c ∷ s) t h k = ground (arith, all_of-append f s t)

decimal_loop-digits : (f n : ℕ) → all_of is_digit (decimal_loop f n) ≡ true
unfolding decimal_loop
decimal_loop-digits zero n = refl
decimal_loop-digits (suc f) n = elim (Bool-cases (ltb n 10)) [
  | inl q ↦ rw q (ground (arith, q))
  | inr q ↦ rw q (
      all_of-append is_digit (decimal_loop f (n / 10)) ((48 + n % 10) ∷ [])
        (decimal_loop-digits f (n / 10)) (ground arith))
]

pub decimal-digits : (n : ℕ) → all_of is_digit (decimal n) ≡ true
unfolding decimal
decimal-digits n = decimal_loop-digits (suc n) n

decimal_loop-ne-nil : (f n : ℕ) → decimal_loop (suc f) n ≢ []
unfolding decimal_loop
decimal_loop-ne-nil f n e = elim (Bool-cases (ltb n 10)) [
  | inl q ↦ let g = rw q at e in cc
  | inr q ↦
      let g = rw q at e in
      omega (arith, ap length g, length-append (decimal_loop f (n / 10)) ((48 + n % 10) ∷ []))
]

-- Digits only are read as they are: no sign is taken off.
parse_unsigned-digits :
    (limit : ℕ) (t : Text)
    → t ≢ []
    → all_of is_digit t ≡ true
    → parse_unsigned limit t ≡ parse_digits limit 0 t
unfolding parse_unsigned
parse_unsigned-digits limit [] h d = elim (h refl) [ ]
parse_unsigned-digits limit (c ∷ []) h d = ground arith
parse_unsigned-digits limit (c ∷ e ∷ t) h d = ground arith

-- A number below the limit, printed, is read back.
pub parse_unsigned-decimal : (limit n : ℕ) → n < limit → parse_unsigned limit (decimal n) ≡ some n
unfolding decimal parse_digits
parse_unsigned-decimal limit n h =
    parse_unsigned-digits limit (decimal n) (decimal_loop-ne-nil n n) (decimal-digits n)
    ∙ rw (← append-nil (decimal_loop (suc n) n))
        (parse_digits-decimal_loop limit (suc n) n [] (omega arith) h)

-- Digits are no letters.
pub to_lowercase-digits : (t : Text) → all_of is_digit t ≡ true → to_lowercase t ≡ t
unfolding to_lowercase
to_lowercase-digits [] h = refl
to_lowercase-digits (c ∷ t) h = ground (arith, to_lowercase-digits t)

pub lacks-digits :
    (c : ℕ) (t : Text) → is_digit c ≡ false → all_of is_digit t ≡ true → lacks c t ≡ true
unfolding lacks
lacks-digits c [] n h = refl
lacks-digits c (d ∷ t) n h = ground (arith, lacks-digits c t)

parse_digits-lt :
    (limit acc n : ℕ) (t : Text) → acc < limit → parse_digits limit acc t ≡ some n → n < limit
unfolding parse_digits
parse_digits-lt limit acc n [] h e = ground arith
parse_digits-lt limit acc n (c ∷ t) h e =
    ground (arith, parse_digits-lt limit (acc * 10 + (c - 48)) n t)

-- What is read is below the limit.
pub parse_unsigned-lt :
    (limit n : ℕ) (t : Text) → 0 < limit → parse_unsigned limit t ≡ some n → n < limit
unfolding parse_unsigned
parse_unsigned-lt limit n [] h e = cc
parse_unsigned-lt limit n (c ∷ []) h e = ground (arith, parse_digits-lt limit 0 n (c ∷ []))
parse_unsigned-lt limit n (c ∷ d ∷ t) h e =
    ground (arith, parse_digits-lt limit 0 n (d ∷ t), parse_digits-lt limit 0 n (c ∷ d ∷ t))
