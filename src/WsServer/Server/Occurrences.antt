-- ===== src/WsServer/Server/Occurrences.antt =====
-- How often a value stands in a list, after the changes of the list in ws-server/src/server.rs.
use jsonrpsee.Base.{◌+◌, ◌-◌, List, [], ◌∷◌, ◌++◌, if◌then◌else◌, Eq, ◌==◌, ◌≡◌, arith, refl}
use jsonrpsee.WsServer.Server.{occurrences, retain_other, remove_first}

module _ {Key : Type 0} ⦃e : Eq Key⦄ where
  pub occurrences-append :
      (k : Key) (xs ys : List Key) → occurrences k (xs ++ ys) ≡ occurrences k xs + occurrences k ys
  unfolding occurrences
  occurrences-append k [] ys = omega arith
  occurrences-append k (x ∷ xs) ys = ground (arith, occurrences-append k xs ys)

  pub occurrences-one : (k c : Key) → occurrences k (c ∷ []) ≡ (if c == k then 1 else 0)
  unfolding occurrences
  occurrences-one k c = refl

  pub occurrences-retain :
      (j k : Key) (xs : List Key)
      → occurrences j (retain_other k xs) ≡ (if k == j then 0 else occurrences j xs)
  unfolding occurrences retain_other
  occurrences-retain j k [] = ground arith
  occurrences-retain j k (x ∷ xs) =
      ground (arith, occurrences-retain j k xs, e.eqb_iff x k, e.eqb_iff k j, e.eqb_iff x j)

  pub occurrences-remove_first :
      (j k : Key) (xs : List Key)
      → occurrences j (remove_first k xs)
        ≡ (if k == j then occurrences j xs - 1 else occurrences j xs)
  unfolding occurrences remove_first
  occurrences-remove_first j k [] = ground arith
  occurrences-remove_first j k (x ∷ xs) =
      ground (arith, occurrences-remove_first j k xs, e.eqb_iff x k, e.eqb_iff k j, e.eqb_iff x j)
