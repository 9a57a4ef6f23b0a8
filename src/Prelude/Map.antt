-- ===== src/Prelude/Map.antt =====
-- A JavaScript `Map`, which iterates in the order of first insertion: an association list whose
-- `set` replaces in place or appends.
use mathlib.Core.Path.{◌≡◌, refl, sym, subst, ◌∙◌}
use mathlib.Core.Logic.{◌≢◌}
use mathlib.Core.Bool.{Bool, true, false}
use mathlib.Core.List.{List, [], ◌∷◌, ◌++◌, append-nil, append_assoc, map as list_map}
use mathlib.Core.Option.{Option, none, some}
use native.Mathlib.Omega.{arith}
use nodejs_k8s.Prelude.Tests.{if◌then◌else◌}
use nodejs_k8s.Prelude.Equality.{Eq, ◌==◌}

abbrev pub Map {ℓ κ} : Type ℓ → Type κ → Type (ℓ ⊔ κ)
Map K V = List (K × V)

module _ {ℓ κ} {K : Type ℓ} {V : Type κ} ⦃e : Eq K⦄ where
  -- `m.get(k)`
  unfoldable pub get : K → Map K V → Option V
  get k [] = none
  get k ((j, v) ∷ m) = let rest = get k m in if j == k then some v else rest

  -- `m.has(k)`
  unfoldable pub has : K → Map K V → Bool
  has k m = elim (get k m) [ none ↦ false | some v ↦ true ]

  -- `m.set(k, v)`
  unfoldable pub set : K → V → Map K V → Map K V
  set k v [] = (k, v) ∷ []
  set k v ((j, w) ∷ m) = let rest = set k v m in if j == k then (j, v) ∷ m else (j, w) ∷ rest

  -- `m.delete(k)`
  unfoldable pub delete : K → Map K V → Map K V
  delete k [] = []
  delete k ((j, w) ∷ m) = let rest = delete k m in if j == k then rest else (j, w) ∷ rest

  pub get-set :
      (k j : K) (v : V) (m : Map K V) → get j (set k v m) ≡ (if k == j then some v else get j m)
  unfolding get set
  get-set k j v [] = ground (arith, e.beq_iff k j)
  get-set k j v ((i, w) ∷ m) =
      ground (arith, e.beq_iff k j, e.beq_iff i k, e.beq_iff i j, get-set k j v m)

  pub get-delete : (k j : K) (m : Map K V) → get j (delete k m) ≡ (if k == j then none else get j m)
  unfolding get delete
  get-delete k j [] = ground arith
  get-delete k j ((i, w) ∷ m) =
      ground (arith, e.beq_iff k j, e.beq_iff i k, e.beq_iff i j, get-delete k j m)

-- `[...m.keys()]`
abbrev pub keys {ℓ κ} : {K : Type ℓ} {V : Type κ} → Map K V → List K
keys m = list_map (λ (p : _). p.0) m

-- No key stands twice, as in every `Map`.
abbrev pub IsDistinct {ℓ κ} : {K : Type ℓ} {V : Type κ} ⦃e : Eq K⦄ → Map K V → Type κ
IsDistinct [] = Unit
IsDistinct ((k, v) ∷ m) = (get k m ≡ none) × IsDistinct m

module _ {ℓ κ} {K : Type ℓ} {V : Type κ} ⦃e : Eq K⦄ where
  pub IsDistinct-set : (k : K) (v : V) (m : Map K V) → IsDistinct m → IsDistinct (set k v m)
  unfolding set
  IsDistinct-set k v [] d = (unfold get in refl, tt)
  IsDistinct-set k v ((j, w) ∷ m) d =
      ground (arith, e.beq_iff j k, e.beq_iff k j, get-set k j v m, IsDistinct-set k v m d.1)

module _ {ℓ κ} {K : Type ℓ} {V : Type κ} ⦃e : Eq K⦄ where
  -- `new Map(pairs)`, behind what is there
  unfoldable pub extend : Map K V → Map K V → Map K V
  extend m [] = m
  extend m ((k, v) ∷ pairs) = extend (set k v m) pairs

  set-absent : (k : K) (v : V) (m : Map K V) → get k m ≡ none → set k v m ≡ m ++ (k, v) ∷ []
  unfolding get set
  set-absent k v [] h = refl
  set-absent k v ((j, w) ∷ m) h = ground (arith, set-absent k v m)

  get-present : (k : K) (v : V) (m n : Map K V) → get k (m ++ (k, v) ∷ n) ≢ none
  unfolding get
  get-present k v [] n h = ground (arith, e.beq_iff k k)
  get-present k v ((j, w) ∷ m) n h = ground (arith, get-present k v m n)

  get-before : (k : K) (v : V) (m n : Map K V) → IsDistinct (m ++ (k, v) ∷ n) → get k m ≡ none
  unfolding get
  get-before k v [] n d = refl
  get-before k v ((j, w) ∷ m) n d =
      ground (arith, e.beq_iff j k, get-before k v m n d.1, get-present k v m n, d.0)

  extend-IsDistinct : (m pairs : Map K V) → IsDistinct (m ++ pairs) → extend m pairs ≡ m ++ pairs
  unfolding extend
  extend-IsDistinct m [] d = sym (append-nil m)
  extend-IsDistinct m ((k, v) ∷ pairs) d = rw (set-absent k v m (get-before k v m pairs d)) (
      extend-IsDistinct (m ++ (k, v) ∷ []) pairs
        (subst IsDistinct (sym (append_assoc m ((k, v) ∷ []) pairs)) d)
      ∙ append_assoc m ((k, v) ∷ []) pairs)

  -- Building a map from the pairs of a map gives that map.
  pub extend-nil : (pairs : Map K V) → IsDistinct pairs → extend [] pairs ≡ pairs
  extend-nil pairs d = extend-IsDistinct [] pairs d
