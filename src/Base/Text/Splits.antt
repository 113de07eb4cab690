-- ===== src/Base/Text/Splits.antt =====
-- What the pieces of a split text are.
use Prim.Native.Nat.{ℕ, zero, suc}
use mathlib.Core.Bool.{true, false, ◌&&◌}
use mathlib.Core.List.{List, [], ◌∷◌, ◌++◌}
use mathlib.Core.Logic.{◌≢◌, inl, inr}
use mathlib.Core.Option.{Option, none, some}
use mathlib.Core.Path.{◌≡◌, refl, ap, sym, ◌∙◌}
use native.Mathlib.Omega.{arith}
use jsonrpsee.Base.Lists.{length}
use jsonrpsee.Base.Tests.{nat_beq, Bool-cases, Option-cases}
use jsonrpsee.Base.Text.{Text, strip_prefix, split_once, split_loop, split, lacks, cons_left}

pub strip_prefix-append : (p s r : Text) → strip_prefix p s ≡ some r → s ≡ p ++ r
unfolding strip_prefix
strip_prefix-append [] s r h = ground (arith, h)
strip_prefix-append (c ∷ p) [] r h = cc
strip_prefix-append (c ∷ p) (d ∷ s) r h = ground (arith, strip_prefix-append p s r)

pub strip_prefix_self : (p r : Text) → strip_prefix p (p ++ r) ≡ some r
unfolding strip_prefix
strip_prefix_self [] r = refl
strip_prefix_self (c ∷ p) r = ground (arith, strip_prefix_self p r)

pub cons_left-some :
    (c : ℕ) (o : Option (Text × Text)) (a b : Text)
    → cons_left c o ≡ some (a, b)
    → (a' : Text) × (o ≡ some (a', b)) × (a ≡ c ∷ a')
cons_left-some c none a b h = cc
cons_left-some c (some (a', b')) a b h = (a', ground arith, ground arith)

-- The two parts with the separator between them are the text.
pub split_once-append : (p s a b : Text) → split_once p s ≡ some (a, b) → s ≡ a ++ (p ++ b)
unfolding split_once
split_once-append p [] a b h = elim (Option-cases (strip_prefix p [])) [
  | inl e ↦ let g = rw (e, split_once) at h in cc
  | inr (r, e) ↦ let g = rw (e, split_once) at h in ground (arith, strip_prefix-append p [] r)
]
split_once-append p (c ∷ s) a b h = elim (Option-cases (strip_prefix p (c ∷ s))) [
  | inl e ↦
      let (a', e', ea) = cons_left-some c (split_once p s) a b (rw (e, split_once) at h) in
      ground (arith, split_once-append p s a' b)
  | inr (r, e) ↦ let g = rw (e, split_once) at h in ground (arith, strip_prefix-append p (c ∷ s) r)
]

pub lacks-append : (c : ℕ) (s t : Text) → lacks c (s ++ t) ≡ (lacks c s && lacks c t)
unfolding lacks
lacks-append c [] t = refl
lacks-append c (d ∷ s) t = ground (arith, lacks-append c s t)

-- A text without a character of the separator has no separator.
pub split_once-lacks :
    (c : ℕ) (p s : Text) → lacks c p ≡ false → lacks c s ≡ true → split_once p s ≡ none
split_once-lacks c p s h k = elim (Option-cases (split_once p s)) [
  | inl e ↦ e
  | inr ((a, b), e) ↦
      let g =
        rw (split_once-append p s a b e, lacks-append c a (p ++ b), lacks-append c p b) at k in
      ground (arith, h)
]

-- Before a separator of one character, that character does not stand.
pub split_once-char-lacks :
    (c : ℕ) (s a b : Text) → split_once (c ∷ []) s ≡ some (a, b) → lacks c a ≡ true
unfolding split_once strip_prefix lacks
split_once-char-lacks c [] a b h = cc
split_once-char-lacks c (d ∷ s) a b h = elim (Bool-cases (nat_beq c d)) [
  | inl q ↦ let g = rw (q, split_once) at h in ground (arith, g)
  | inr q ↦
      let (a', e', ea) = cons_left-some d (split_once (c ∷ []) s) a b (rw (q, split_once) at h) in
      ground (arith, split_once-char-lacks c s a' b)
]

pub split_once-char-none : (c : ℕ) (s : Text) → split_once (c ∷ []) s ≡ none → lacks c s ≡ true
unfolding split_once strip_prefix lacks
split_once-char-none c [] h = refl
split_once-char-none c (d ∷ s) h = elim (Bool-cases (nat_beq c d)) [
  | inl q ↦ let g = rw (q, split_once) at h in cc
  | inr q ↦ ground (arith, split_once-char-none c s)
]

pub split_once-char-append :
    (c : ℕ) (a b : Text) → lacks c a ≡ true → split_once (c ∷ []) (a ++ (c ∷ b)) ≡ some (a, b)
unfolding split_once strip_prefix lacks
split_once-char-append c [] b h = ground arith
split_once-char-append c (d ∷ a) b h = ground (arith, split_once-char-append c a b)

-- Pieces with the separator between them.
abbrev pub join : Text → List Text → Text
join p [] = []
join p (s ∷ []) = s
join p (s ∷ t ∷ ts) = s ++ (p ++ join p (t ∷ ts))

join-cons : (p a : Text) (ts : List Text) → ts ≢ [] → join p (a ∷ ts) ≡ a ++ (p ++ join p ts)
join-cons p a [] h = elim (h refl) [ ]
join-cons p a (t ∷ ts) h = refl

split_loop-ne-nil : (f : ℕ) (p s : Text) → split_loop f p s ≢ []
unfolding split_loop
split_loop-ne-nil zero p s h = cc
split_loop-ne-nil (suc f) p s h = elim (Option-cases (split_once p s)) [
  | inl e ↦ let g = rw (e, split_loop) at h in cc
  | inr ((a, b), e) ↦ let g = rw (e, split_loop) at h in cc
]

split_loop-join : (f : ℕ) (p s : Text) → join p (split_loop f p s) ≡ s
unfolding split_loop
split_loop-join zero p s = refl
split_loop-join (suc f) p s = elim (Option-cases (split_once p s)) [
  | inl e ↦ rw (e, split_loop) refl
  | inr ((a, b), e) ↦
      rw (e, split_loop)
        (join-cons p a (split_loop f p b) (split_loop-ne-nil f p b)
          ∙ ap (λ (t : Text). a ++ (p ++ t)) (split_loop-join f p b)
          ∙ sym (split_once-append p s a b e))
]

-- The pieces of a text, joined, are the text.
pub join-split : (p s : Text) → join p (split p s) ≡ s
unfolding split
join-split p s = split_loop-join (length s) p s
