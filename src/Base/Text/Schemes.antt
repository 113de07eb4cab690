-- ===== src/Base/Text/Schemes.antt =====
-- The separator `://`, and small letters.
use Prim.Native.Nat.{ℕ, ◌<◌}
use mathlib.Core.Bool.{Bool, true, ◌&&◌}
use mathlib.Core.List.{[], ◌∷◌, ◌++◌}
use mathlib.Core.Logic.{◌≢◌, inl, inr}
use mathlib.Core.Option.{none, some}
use mathlib.Core.Path.{◌≡◌, refl}
use native.Mathlib.Omega.{arith}
use jsonrpsee.Base.Lists.{all_of}
use jsonrpsee.Base.Tests.{nat_beq, Option-cases}
use jsonrpsee.Base.Text.{
  Text, codes, strip_prefix, split_once, lacks, lower, to_lowercase, is_digit,
}
use jsonrpsee.Base.Text.Splits.{split_once-append, cons_left-some}

lower_idem : (c : ℕ) → lower (lower c) ≡ lower c
unfolding lower
lower_idem c = ground arith

pub to_lowercase_idem : (s : Text) → to_lowercase (to_lowercase s) ≡ to_lowercase s
unfolding to_lowercase
to_lowercase_idem [] = refl
to_lowercase_idem (c ∷ s) = cc (lower_idem c, to_lowercase_idem s)

pub to_lowercase-append : (s t : Text) → to_lowercase (s ++ t) ≡ to_lowercase s ++ to_lowercase t
unfolding to_lowercase
to_lowercase-append [] t = refl
to_lowercase-append (c ∷ s) t = cc (to_lowercase-append s t)

-- The text has no capital letter.
unfoldable pub small : Text → Bool
unfolding lower
small s = all_of (λ c. nat_beq (lower c) c) s

pub small-append : (s t : Text) → small (s ++ t) ≡ (small s && small t)
unfolding small
small-append [] t = refl
small-append (d ∷ s) t = ground (arith, small-append s t)

lower-small : (c : ℕ) → nat_beq (lower (lower c)) (lower c) ≡ true
unfolding lower
lower-small c = ground arith

pub small-to_lowercase : (s : Text) → small (to_lowercase s) ≡ true
unfolding small to_lowercase
small-to_lowercase [] = refl
small-to_lowercase (c ∷ s) = ground (arith, lower-small c, small-to_lowercase s)

pub to_lowercase-small : (s : Text) → small s ≡ true → to_lowercase s ≡ s
unfolding small to_lowercase
to_lowercase-small [] h = refl
to_lowercase-small (c ∷ s) h = ground (arith, to_lowercase-small s)

pub small-digits : (t : Text) → all_of is_digit t ≡ true → small t ≡ true
unfolding small
small-digits [] h = refl
small-digits (c ∷ t) h = ground (arith, small-digits t)

lower-beq : (c d : ℕ) → c < 65 → nat_beq c (lower d) ≡ nat_beq c d
unfolding lower
lower-beq c d h = ground arith

-- A character that is no letter stays where it is.
pub lacks-to_lowercase : (c : ℕ) (s : Text) → c < 65 → lacks c (to_lowercase s) ≡ lacks c s
unfolding lacks to_lowercase
lacks-to_lowercase c [] h = refl
lacks-to_lowercase c (d ∷ s) h = ground (arith, lower-beq c d, lacks-to_lowercase c s)

pub strip_prefix-append_right :
    (p s r t : Text) → strip_prefix p s ≡ some r → strip_prefix p (s ++ t) ≡ some (r ++ t)
unfolding strip_prefix
strip_prefix-append_right [] s r t h = ground arith
strip_prefix-append_right (c ∷ p) [] r t h = cc
strip_prefix-append_right (c ∷ p) (d ∷ s) r t h = ground (arith, strip_prefix-append_right p s r t)

split_once-cons-none :
    (p : Text) (c : ℕ) (s : Text)
    → split_once p (c ∷ s) ≡ none
    → (strip_prefix p (c ∷ s) ≡ none) × (split_once p s ≡ none)
unfolding split_once
split_once-cons-none p c s h = elim (Option-cases (strip_prefix p (c ∷ s))) [
  | inl e ↦ elim (Option-cases (split_once p s)) [
    | inl e' ↦ (e, e')
    | inr ((a, b), e') ↦ let g = rw (e, e', split_once) at h in cc
  ]
  | inr (r, e) ↦ let g = rw (e, split_once) at h in cc
]

split_once-none-cons :
    (p : Text) (c : ℕ) (s : Text)
    → strip_prefix p (c ∷ s) ≡ none
    → split_once p s ≡ none
    → split_once p (c ∷ s) ≡ none
unfolding split_once
split_once-none-cons p c s h k = rw (h, split_once) (rw k refl)

split_once-some-cons :
    (p : Text) (c : ℕ) (s a b : Text)
    → strip_prefix p (c ∷ s) ≡ none
    → split_once p s ≡ some (a, b)
    → split_once p (c ∷ s) ≡ some (c ∷ a, b)
unfolding split_once
split_once-some-cons p c s a b h k = rw (h, split_once) (rw k refl)

empty-none : (c : ℕ) (p a b : Text) → split_once (c ∷ p) [] ≢ some (a, b)
unfolding split_once strip_prefix
empty-none c p a b h = cc

strip_prefix-left-none :
    (c : ℕ) (p s t : Text) → strip_prefix (c ∷ p) (s ++ t) ≡ none → strip_prefix (c ∷ p) s ≡ none
strip_prefix-left-none c p s t h = elim (Option-cases (strip_prefix (c ∷ p) s)) [
  | inl e ↦ e
  | inr (r, e) ↦ cc (strip_prefix-append_right (c ∷ p) s r t e)
]

-- Before the first separator there is none.
pub split_once-left-none :
    (c : ℕ) (p s a b : Text) → split_once (c ∷ p) s ≡ some (a, b) → split_once (c ∷ p) a ≡ none
unfolding split_once
split_once-left-none c p [] a b h = absurd (empty-none c p a b h)
split_once-left-none c p (e ∷ s) a b h = elim (Option-cases (strip_prefix (c ∷ p) (e ∷ s))) [
  | inr (r, k) ↦
      let g = rw (k, split_once) at h in
      let ea : a ≡ [] = ground arith in rw ea (unfold split_once strip_prefix in refl)
  | inl k ↦
      let (a', e', ea) = cons_left-some e (split_once (c ∷ p) s) a b (rw (k, split_once) at h) in
      rw ea (
        split_once-none-cons (c ∷ p) e a'
          (strip_prefix-left-none c p (e ∷ a') ((c ∷ p) ++ b)
            (rw (split_once-append (c ∷ p) s a' b e') at k))
          (split_once-left-none c p s a' b e'))
]

abbrev pub scheme_mark : Text
scheme_mark = codes "://"

strip_mark-lowercase :
    (s : Text)
    → strip_prefix scheme_mark s ≡ none
    → strip_prefix scheme_mark (to_lowercase s) ≡ none
unfolding strip_prefix to_lowercase
strip_mark-lowercase [] h = refl
strip_mark-lowercase (c ∷ []) h = ground (arith, lower-beq b':' c)
strip_mark-lowercase (c ∷ d ∷ []) h = ground (arith, lower-beq b':' c, lower-beq b'/' d)
strip_mark-lowercase (c ∷ d ∷ e ∷ s) h =
    ground (arith, lower-beq b':' c, lower-beq b'/' d, lower-beq b'/' e)

-- Small letters make no separator.
pub split_mark-lowercase :
    (s : Text) → split_once scheme_mark s ≡ none → split_once scheme_mark (to_lowercase s) ≡ none
unfolding to_lowercase
split_mark-lowercase [] h = h
split_mark-lowercase (c ∷ s) h =
    let (e, e') = split_once-cons-none scheme_mark c s h in
    split_once-none-cons scheme_mark (lower c) (to_lowercase s) (strip_mark-lowercase (c ∷ s) e)
      (split_mark-lowercase s e')

-- No separator begins in a text that has none and ends in the separator after it.
strip_mark-append :
    (c : ℕ) (s t : Text)
    → strip_prefix scheme_mark (c ∷ s) ≡ none
    → strip_prefix scheme_mark ((c ∷ s) ++ (scheme_mark ++ t)) ≡ none
unfolding strip_prefix
strip_mark-append c [] t h = ground arith
strip_mark-append c (d ∷ []) t h = ground arith
strip_mark-append c (d ∷ e ∷ s) t h = ground arith

-- A text without the separator is the part before the one that is put behind it.
pub split_mark-append :
    (s t : Text)
    → split_once scheme_mark s ≡ none
    → split_once scheme_mark (s ++ (scheme_mark ++ t)) ≡ some (s, t)
split_mark-append [] t h = unfold split_once strip_prefix in refl
split_mark-append (c ∷ s) t h =
    let (e, e') = split_once-cons-none scheme_mark c s h in
    split_once-some-cons scheme_mark c (s ++ (scheme_mark ++ t)) s t (strip_mark-append c s t e)
      (split_mark-append s t e')
