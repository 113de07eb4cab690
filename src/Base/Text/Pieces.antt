-- ===== src/Base/Text/Pieces.antt =====
-- The fuel of `split` is enough: no piece has a separator left.
use Prim.Native.Nat.{ℕ, zero, suc, ◌≤◌}
use mathlib.Core.List.{List, [], ◌∷◌, ◌++◌}
use mathlib.Core.Logic.{inl, inr}
use mathlib.Core.Option.{none}
use mathlib.Core.Path.{◌≡◌, refl, ap}
use native.Mathlib.Omega.{arith}
use jsonrpsee.Base.Lists.{length, length-append}
use jsonrpsee.Base.Tests.{Option-cases}
use jsonrpsee.Base.Text.{Text, split_once, split_loop, split}
use jsonrpsee.Base.Text.Splits.{split_once-append}
use jsonrpsee.Base.Text.Schemes.{split_once-left-none}

abbrev pub AllFree : Text → List Text → Type 0
AllFree p [] = Unit
AllFree p (t ∷ ts) = (split_once p t ≡ none) × AllFree p ts

split_loop-AllFree :
    (f c : ℕ) (p s : Text) → length s ≤ f → AllFree (c ∷ p) (split_loop f (c ∷ p) s)
unfolding split_loop
split_loop-AllFree zero c p [] h = (unfold split_once jsonrpsee.Base.Text.strip_prefix in refl, tt)
split_loop-AllFree zero c p (d ∷ s) h = absurd (omega arith)
split_loop-AllFree (suc f) c p s h = elim (Option-cases (split_once (c ∷ p) s)) [
  | inl e ↦ rw (e, split_loop) (e, tt)
  | inr ((a, b), e) ↦
      rw (e, split_loop)
        (
          split_once-left-none c p s a b e,
          split_loop-AllFree f c p b (
              omega (
                arith,
                ap length (split_once-append (c ∷ p) s a b e),
                length-append a ((c ∷ p) ++ b),
                length-append p b,
              )),
        )
]

-- No piece of a text has the separator in it.
pub split-AllFree : (c : ℕ) (p s : Text) → AllFree (c ∷ p) (split (c ∷ p) s)
unfolding split
split-AllFree c p s = split_loop-AllFree (length s) c p s (omega arith)
