-- ===== src/Base/Dict/Laws.antt =====
-- How `get` reads what `insert`, `remove` and `map_values` wrote.
use mathlib.Core.Option
use jsonrpsee.Base.Tests.{if◌then◌else◌, Bool-cases}
use jsonrpsee.Base.Equality.{Eq, ◌==◌, beq_refl}
use jsonrpsee.Base.Dict.{Dict, get, insert, remove, map_values, Unique}
use mathlib.Core.Option.{Option, none, some}
use mathlib.Core.Path.{◌≡◌, refl, ap}
use mathlib.Core.List.{[], ◌∷◌}
use mathlib.Core.Logic.{inl, inr}
use native.Mathlib.Omega.{arith}

module _ {ℓ κ} {K : Type ℓ} {V : Type κ} ⦃e : Eq K⦄ where
  pub get-insert :
      (d : Dict K V) (k j : K) (v : V) → get (insert d k v) j ≡ (if k == j then some v else get d j)
  unfolding get insert
  get-insert [] k j v = refl
  get-insert ((i, w) ∷ d) k j v =
      ground (arith, e.eqb_iff k j, e.eqb_iff i k, e.eqb_iff i j, get-insert d k j v)

  pub get-remove :
      (d : Dict K V) (k j : K) → get (remove d k) j ≡ (if k == j then none else get d j)
  unfolding get remove
  get-remove [] k j = ground arith
  get-remove ((i, w) ∷ d) k j =
      ground (arith, e.eqb_iff k j, e.eqb_iff i k, e.eqb_iff i j, get-remove d k j)

  pub insert-Unique : (d : Dict K V) (k : K) (v : V) → Unique d → Unique (insert d k v)
  unfolding insert get
  insert-Unique [] k v u = (refl, tt)
  insert-Unique ((i, w) ∷ d) k v u =
      ground (arith, e.eqb_iff i k, e.eqb_iff k i, get-insert d k i v, insert-Unique d k v u.1)

  pub remove-Unique : (d : Dict K V) (k : K) → Unique d → Unique (remove d k)
  unfolding remove
  remove-Unique [] k u = tt
  remove-Unique ((i, w) ∷ d) k u = ground (arith, get-remove d k i, remove-Unique d k u.1)

module _ {ℓ κ μ} {K : Type ℓ} {V : Type κ} {W : Type μ} ⦃e : Eq K⦄ where
  pub get-map_values :
      (f : V → W) (d : Dict K V) (k : K) → get (map_values f d) k ≡ Option.map f (get d k)
  unfolding get map_values
  get-map_values f [] k = refl
  get-map_values f ((j, v) ∷ d) k = ground (arith, get-map_values f d k)

  pub map_values-Unique : (f : V → W) (d : Dict K V) → Unique d → Unique (map_values f d)
  unfolding map_values
  map_values-Unique f [] u = tt
  map_values-Unique f ((k, v) ∷ d) u =
      ground (arith, get-map_values f d k, map_values-Unique f d u.1)

pub ruleset dict_laws = (get-insert, get-remove, get-map_values)

module _ {ℓ κ} {K : Type ℓ} {V : Type κ} ⦃e : Eq K⦄ where
  -- Taking out what was put under an unused key gives the table back.
  pub remove-insert : (d : Dict K V) (k : K) (v : V) → get d k ≡ none → remove (insert d k v) k ≡ d
  unfolding get insert remove
  remove-insert [] k v h = rw (beq_refl k) refl
  remove-insert ((j, w) ∷ d) k v h = elim (Bool-cases (j == k)) [
    | inl q ↦ cc (rw q at h)
    | inr q ↦ rw (q, q) (ap (λ x. (j, w) ∷ x) (remove-insert d k v (rw q at h)))
  ]
