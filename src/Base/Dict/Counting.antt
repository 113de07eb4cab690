-- ===== src/Base/Dict/Counting.antt =====
-- How many values of a map pass a test.
use Prim.Native.Nat.{ℕ, suc, ◌+◌, ◌≤◌, ◌<◌}
use jsonrpsee.Base.Lists.{length}
use jsonrpsee.Base.Equality.{Eq, beq_refl, beq_ne}
use jsonrpsee.Base.Dict.{Dict, get, insert, remove, map_values, Unique}
use mathlib.Core.Option.{none, some}
use mathlib.Core.Path.{◌≡◌, refl}
use mathlib.Core.List.{[], ◌∷◌}
use mathlib.Core.Bool.{Bool, true, false}
use native.Mathlib.Omega.{arith}

-- 1 for a value that passes, 0 for one that does not
abbrev pub weight : Bool → ℕ
weight true = 1
weight false = 0

unfoldable pub count_values {ℓ κ} : {K : Type ℓ} {V : Type κ} → (V → Bool) → Dict K V → ℕ
count_values test [] = 0
count_values test ((k, v) ∷ d) = weight (test v) + count_values test d

module _ {ℓ κ} {K : Type ℓ} {V : Type κ} ⦃e : Eq K⦄ where
  pub count_values-insert :
      (test : V → Bool) (d : Dict K V) (k : K) (v : V)
      → get d k ≡ none
      → count_values test (insert d k v) ≡ weight (test v) + count_values test d
  unfolding get insert count_values
  count_values-insert test [] k v h = refl
  count_values-insert test ((i, w) ∷ d) k v h = ground (arith, count_values-insert test d k v)

  pub remove-absent : (d : Dict K V) (k : K) → get d k ≡ none → remove d k ≡ d
  unfolding get remove
  remove-absent [] k h = refl
  remove-absent ((i, w) ∷ d) k h = ground (arith, remove-absent d k)

  pub count_values-remove :
      (test : V → Bool) (d : Dict K V) (k : K) (v : V)
      → get d k ≡ some v
      → Unique d
      → weight (test v) + count_values test (remove d k) ≡ count_values test d
  unfolding get remove count_values
  count_values-remove test [] k v h u = cc
  count_values-remove test ((i, w) ∷ d) k v h u =
      ground (arith, count_values-remove test d k v, remove-absent d k, e.eqb_iff i k)

  pub length-remove_le : (d : Dict K V) (k : K) → length (remove d k) ≤ length d
  unfolding remove
  length-remove_le [] k = omega arith
  length-remove_le ((i, w) ∷ d) k = ground (arith, length-remove_le d k)

  pub length-remove_lt :
      (d : Dict K V) (k : K) (v : V) → get d k ≡ some v → length (remove d k) < length d
  unfolding get remove
  length-remove_lt [] k v h = cc
  length-remove_lt ((i, w) ∷ d) k v h = ground (arith, length-remove_lt d k v, length-remove_le d k)

  pub length-insert :
      (d : Dict K V) (k : K) (v w : V) → get d k ≡ some w → length (insert d k v) ≡ length d
  unfolding get insert
  length-insert [] k v w h = cc
  length-insert ((i, x) ∷ d) k v w h = ground (arith, length-insert d k v w)

  pub length-insert_le : (d : Dict K V) (k : K) (v : V) → length (insert d k v) ≤ suc (length d)
  unfolding insert
  length-insert_le [] k v = omega arith
  length-insert_le ((i, x) ∷ d) k v = ground (arith, length-insert_le d k v)

  -- No value passes a test that the value of each key fails.
  pub count_values-none :
      (test : V → Bool) (d : Dict K V)
      → Unique d
      → ((k : K) (v : V) → get d k ≡ some v → test v ≡ false)
      → count_values test d ≡ 0
  unfolding get count_values
  count_values-none test [] u h = refl
  count_values-none test ((i, x) ∷ d) u h =
      let at_head : test x ≡ false = h i x (rw (beq_refl i)) in
      let rest : count_values test d ≡ 0 =
        count_values-none test d u.1
          (λ k v at. h k v (rw (beq_ne i k (λ p. apart k v p at u.0)) at)) in
      rw (at_head, rest)
    where
      apart : (k : K) (v : V) → i ≡ k → get d k ≡ some v → get d i ≡ none → ⊥
      apart k v p at gone = cc

pub count_values-map_values {ℓ κ} :
    {K : Type ℓ} {V : Type κ} (test : V → Bool) (f : V → V) (d : Dict K V)
    → ((v : V) → test (f v) ≡ test v)
    → count_values test (map_values f d) ≡ count_values test d
unfolding count_values map_values
count_values-map_values test f [] h = refl
count_values-map_values test f ((k, v) ∷ d) h = rw (h v, count_values-map_values test f d h)
