-- ===== src/Prelude/Sort.antt =====
-- `Array.prototype.sort`.
use Prim.Native.Nat.{Ordering}
use mathlib.Core.List.{List, [], ◌∷◌}
use native.Mathlib.Omega.{arith}
use nodejs_k8s.Prelude.Lists.{All}

-- The sort is stable: insertion behind every element that is not greater.
unfoldable pub insert {ℓ} : {A : Type ℓ} → (A → A → Ordering) → A → List A → List A
insert cmp a [] = a ∷ []
insert cmp a (b ∷ bs) =
    let rest = insert cmp a bs in elim (cmp b a) [ Ordering.gt ↦ a ∷ b ∷ bs | _ ↦ b ∷ rest ]

unfoldable pub sort_from {ℓ} : {A : Type ℓ} → (A → A → Ordering) → List A → List A → List A
sort_from cmp sorted [] = sorted
sort_from cmp sorted (a ∷ as') = sort_from cmp (insert cmp a sorted) as'

unfoldable pub sort {ℓ} : {A : Type ℓ} → (A → A → Ordering) → List A → List A
unfolding insert sort_from
sort cmp as' = sort_from cmp [] as'

-- Sorting keeps what holds of each element, both ways.
module _ {A : Type 0} (cmp : A → A → Ordering) (P : A → Type 0) where
  pub insert-All : (a : A) (xs : List A) → P a → All P xs → All P (insert cmp a xs)
  unfolding insert
  insert-All a [] p ps = (p, tt)
  insert-All a (b ∷ bs) p (q, ps) = ground (arith, insert-All a bs p ps)

  sort_from-All : (sorted xs : List A) → All P sorted → All P xs → All P (sort_from cmp sorted xs)
  unfolding sort_from
  sort_from-All sorted [] ss sa = ss
  sort_from-All sorted (x ∷ xs) ss (sa, sas) =
      sort_from-All (insert cmp x sorted) xs (insert-All x sorted sa ss) sas

  pub sort-All : (xs : List A) → All P xs → All P (sort cmp xs)
  unfolding sort
  sort-All xs h = sort_from-All [] xs tt h

  insert-All_back : (a : A) (xs : List A) → All P (insert cmp a xs) → P a × All P xs
  unfolding insert
  insert-All_back a [] h = (h.0, tt)
  insert-All_back a (b ∷ bs) h = ground (arith, h, insert-All_back a bs)

  sort_from-All_back :
      (sorted xs : List A) → All P (sort_from cmp sorted xs) → All P sorted × All P xs
  unfolding sort_from
  sort_from-All_back sorted [] h = (h, tt)
  sort_from-All_back sorted (x ∷ xs) h =
      let (y, z) = sort_from-All_back (insert cmp x sorted) xs h in
      let (p, q) = insert-All_back x sorted y in (q, (p, z))

  pub sort-All_back : (xs : List A) → All P (sort cmp xs) → All P xs
  unfolding sort
  sort-All_back xs h = (sort_from-All_back [] xs h).1
