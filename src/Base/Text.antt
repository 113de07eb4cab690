-- ===== src/Base/Text.antt =====
-- Texts of the standard library as lists of code points, where the program walks them. Letters are
-- lowered as in ASCII: a header that hyper gives as a text has no other.
pub mod Splits
pub mod Numbers
pub mod Schemes
pub mod Pieces
use Prim.Native.Char.{code}
use Prim.Native.Nat.{ℕ, zero, suc, ◌+◌, ◌-◌, ◌*◌, ◌/◌, ◌%◌}
use Prim.Native.String.{String}
use mathlib.Core.Bool.{Bool, true, false, not, ◌&&◌, ◌||◌}
use mathlib.Core.List.{List, [], ◌∷◌, ◌++◌, map}
use mathlib.Core.Logic.{◌↔◌}
use mathlib.Core.Option.{Option, none, some}
use mathlib.Core.Path.{◌≡◌}
use native.Mathlib.Omega.{arith}
use jsonrpsee.Base.Equality.{Eq}
use jsonrpsee.Base.Lists.{length, all_of}
use jsonrpsee.Base.Tests.{ltb, leb, nat_beq, if◌then◌else◌}

abbrev pub Text : Type 0
Text = List ℕ

-- a literal
abbrev pub codes : String → Text
codes String.[] = []
codes (String.◌∷◌ c s) = code c ∷ codes s

abbrev pub text_beq : Text → Text → Bool
text_beq [] [] = true
text_beq [] (d ∷ t) = false
text_beq (c ∷ s) [] = false
text_beq (c ∷ s) (d ∷ t) = nat_beq c d && text_beq s t

pub text_beq_iff : (s t : Text) → (text_beq s t ≡ true) ↔ (s ≡ t)
text_beq_iff [] [] = ground arith
text_beq_iff [] (d ∷ t) = ground arith
text_beq_iff (c ∷ s) [] = ground arith
text_beq_iff (c ∷ s) (d ∷ t) = ground (arith, text_beq_iff s t)

instance abbrev pub text_eq : Eq Text
text_eq = record { eqb_iff = text_beq_iff; eqb = text_beq }

-- `to_ascii_lowercase` of a character
unfoldable pub lower : ℕ → ℕ
lower c = if leb b'A' c && leb c b'Z' then c + 32 else c

-- `to_lowercase`
unfoldable pub to_lowercase : Text → Text
unfolding lower
to_lowercase [] = []
to_lowercase (c ∷ s) = lower c ∷ to_lowercase s

-- `eq_ignore_ascii_case`, and the equality of `unicase::Ascii`
unfoldable pub eq_ignore_ascii_case : Text → Text → Bool
unfolding to_lowercase
eq_ignore_ascii_case s t = text_beq (to_lowercase s) (to_lowercase t)

-- `strip_prefix`
unfoldable pub strip_prefix : Text → Text → Option Text
strip_prefix [] s = some s
strip_prefix (c ∷ p) [] = none
strip_prefix (c ∷ p) (d ∷ s) = if nat_beq c d then strip_prefix p s else none

abbrev pub cons_left : ℕ → Option (Text × Text) → Option (Text × Text)
cons_left c none = none
cons_left c (some (a, b)) = some (c ∷ a, b)

-- The texts before and after the first place where a separator stands.
unfoldable pub split_once : Text → Text → Option (Text × Text)
unfolding strip_prefix
split_once p [] = elim (strip_prefix p []) [ none ↦ none | some r ↦ some ([], r) ]
split_once p (c ∷ s) = elim (strip_prefix p (c ∷ s)) [
  | none ↦ cons_left c (split_once p s)
  | some r ↦ some ([], r)
]

-- What the first `next` of `split` gives.
unfoldable pub first_piece : Text → Text → Text
unfolding split_once
first_piece p s = elim (split_once p s) [ none ↦ s | some (a, b) ↦ a ]

-- What the second `next` of `split` gives.
unfoldable pub second_piece : Text → Text → Option Text
unfolding split_once first_piece
second_piece p s = elim (split_once p s) [ none ↦ none | some (a, b) ↦ some (first_piece p b) ]

unfoldable pub split_loop : ℕ → Text → Text → List Text
unfolding split_once
split_loop zero p s = s ∷ []
split_loop (suc f) p s = elim (split_once p s) [
  | none ↦ s ∷ []
  | some (a, b) ↦ a ∷ split_loop f p b
]

-- All pieces of `split`. The separator is not empty, so a unit of fuel for each character is enough.
unfoldable pub split : Text → Text → List Text
unfolding split_loop
split p s = split_loop (length s) p s

-- `ends_with`
unfoldable pub ends_with : Text → Text → Bool
ends_with [] t = text_beq [] t
ends_with (c ∷ s) t = text_beq (c ∷ s) t || ends_with s t

abbrev pub is_digit : ℕ → Bool
is_digit c = leb b'0' c && leb c b'9'

unfoldable pub parse_digits : ℕ → ℕ → Text → Option ℕ
parse_digits limit acc [] = some acc
parse_digits limit acc (c ∷ s) =
    if is_digit c && ltb (acc * 10 + (c - 48)) limit
    then parse_digits limit (acc * 10 + (c - 48)) s
    else none

-- `from_str_radix(_, 10)` of the unsigned integers below a limit, which is also `parse`.
unfoldable pub parse_unsigned : ℕ → Text → Option ℕ
unfolding parse_digits
parse_unsigned limit [] = none
parse_unsigned limit (c ∷ []) =
    if nat_beq c b'+' || nat_beq c b'-' then none else parse_digits limit 0 (c ∷ [])
parse_unsigned limit (c ∷ d ∷ s) =
    parse_digits limit 0 (if nat_beq c b'+' then d ∷ s else c ∷ d ∷ s)

unfoldable pub decimal_loop : ℕ → ℕ → Text
decimal_loop zero n = []
decimal_loop (suc f) n =
    let more = decimal_loop f (n / 10) ++ ((48 + n % 10) ∷ []) in
    if ltb n 10 then (48 + n) ∷ [] else more

-- An unsigned integer as `{}` prints it; more fuel than the number is enough.
unfoldable pub decimal : ℕ → Text
unfolding decimal_loop
decimal n = decimal_loop (suc n) n

-- The text does not have the character.
unfoldable pub lacks : ℕ → Text → Bool
lacks c s = all_of (λ d. not (nat_beq c d)) s
