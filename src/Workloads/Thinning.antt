-- ===== src/Workloads/Thinning.antt =====
-- What the deletions of objects/replicationController.js leave of a list of pods, whichever of a
-- controller's pods the database finds first.
use mathlib.Core.Path.{subst}
use nodejs_k8s.Prelude.{
  ◌⊎◌, ◌||◌, ◌∙◌, sym, min, any, filter, if◌then◌else◌, ℕ, zero, suc, ◌+◌, Bool, true, false, List,
  [], ◌∷◌, ◌++◌, ◌≡◌, refl, ap, arith, All, Bool-cases, inl, inr,
}
use nodejs_k8s.Workloads.Names.{Owned}
use nodejs_k8s.Workloads.Rollout.{Environment, without_at, without_found}

unfoldable pub count : (Owned → Bool) → List Owned → ℕ
count mine [] = 0
count mine (p ∷ ps) = (if mine p then 1 else 0) + count mine ps

-- Without `n` of the matching pods, the second list is the first, in its order.
unfoldable pub IsThinned : (Owned → Bool) → ℕ → List Owned → List Owned → Type 0
IsThinned mine n [] qs = (n ≡ 0) × (qs ≡ [])
IsThinned mine n (p ∷ ps) qs =
    ((m : ℕ) × (n ≡ suc m) × (mine p ≡ true) × IsThinned mine m ps qs)
    ⊎ ((rest : List Owned) × (qs ≡ p ∷ rest) × IsThinned mine n ps rest)

module _ (mine : Owned → Bool) where
  IsThinned-refl : (ps : List Owned) → IsThinned mine 0 ps ps
  unfolding IsThinned
  IsThinned-refl [] = (refl, refl)
  IsThinned-refl (p ∷ ps) = inr (ps, refl, IsThinned-refl ps)

  IsThinned-trans :
      (m n k : ℕ) (ps qs rs : List Owned)
      → IsThinned mine m ps qs
      → IsThinned mine n qs rs
      → m + n ≡ k
      → IsThinned mine k ps rs
  unfolding IsThinned
  IsThinned-trans m n k [] qs rs (none', end) h sum =
      let (none'', end') = subst (λ l. IsThinned mine n l rs) end h in
      (omega (arith, none', none'', sum), end')
  IsThinned-trans m n k (p ∷ ps) qs rs (inl (m', more, yes', h')) h sum =
      inl (m' + n, omega (arith, more, sum), yes', IsThinned-trans m' n (m' + n) ps qs rs h' h refl)
  IsThinned-trans m n k (p ∷ ps) qs rs (inr (rest, same, h')) h sum =
      elim (subst (λ l. IsThinned mine n l rs) same h) [
        | inl (n', more, yes', h'') ↦ inl (
          m + n',
          omega (arith, more, sum),
          yes',
          IsThinned-trans m n' (m + n') ps rest rs h' h'' refl,
        )
        | inr (rest', same', h'') ↦
            inr (rest', same', IsThinned-trans m n k ps rest rest' h' h'' sum)
      ]

  count-IsThinned :
      (n : ℕ) (ps qs : List Owned) → IsThinned mine n ps qs → count mine qs + n ≡ count mine ps
  unfolding IsThinned count
  count-IsThinned n [] qs (none', end) = rw end (omega (arith, none'))
  count-IsThinned n (p ∷ ps) qs (inl (m, more, yes', h)) =
      let ih = count-IsThinned m ps qs h in rw yes' (omega (arith, more, ih))
  count-IsThinned n (p ∷ ps) qs (inr (rest, same, h)) =
      let ih = count-IsThinned n ps rest h in rw same (omega (arith, ih))

  no-count : (ps : List Owned) → any mine ps ≡ false → count mine ps ≡ 0
  unfolding any count
  no-count [] h = refl
  no-count (p ∷ ps) h = elim (Bool-cases (mine p)) [
    | inl yes' ↦ absurd (ground (arith, yes', h))
    | inr no' ↦ rw no' (omega (arith, no-count ps (ground (arith, no', h))))
  ]

  without_at-absent : (k : ℕ) (ps : List Owned) → any mine ps ≡ false → without_at mine k ps ≡ ps
  unfolding any without_at
  without_at-absent k [] h = refl
  without_at-absent zero (p ∷ ps) h = elim (Bool-cases (mine p)) [
    | inl yes' ↦ absurd (ground (arith, yes', h))
    | inr no' ↦
        rw (without_at, no')
          (ap (λ rest. p ∷ rest) (without_at-absent zero ps (ground (arith, no', h))))
  ]
  without_at-absent (suc k) (p ∷ ps) h = elim (Bool-cases (mine p)) [
    | inl yes' ↦ absurd (ground (arith, yes', h))
    | inr no' ↦
        rw (without_at, no')
          (ap (λ rest. p ∷ rest) (without_at-absent (suc k) ps (ground (arith, no', h))))
  ]

  without_at-IsThinned :
      (k : ℕ) (ps : List Owned) → any mine ps ≡ true → IsThinned mine 1 ps (without_at mine k ps)
  unfolding any without_at IsThinned
  without_at-IsThinned k [] h = absurd (ground (arith, h))
  without_at-IsThinned zero (p ∷ ps) h = elim (Bool-cases (mine p)) [
    | inl yes' ↦ rw yes' (inl (0, refl, refl, IsThinned-refl ps))
    | inr no' ↦
        rw no' (
          inr
            (without_at mine zero ps, refl, without_at-IsThinned zero ps (ground (arith, no', h))))
  ]
  without_at-IsThinned (suc k) (p ∷ ps) h = elim (Bool-cases (mine p)) [
    | inr no' ↦ rw no' (
        inr (
          without_at mine (suc k) ps,
          refl,
          without_at-IsThinned (suc k) ps (ground (arith, no', h)),
        ))
    | inl yes' ↦ elim (Bool-cases (any mine ps)) [
      | inr last ↦ rw (yes', last) (inl (0, refl, refl, IsThinned-refl ps))
      | inl more ↦
          rw (yes', more) (inr (without_at mine k ps, refl, without_at-IsThinned k ps more))
    ]
  ]

  any-append_others :
      (ps qs : List Owned) → All (λ q. mine q ≡ false) qs → any mine (ps ++ qs) ≡ any mine ps
  unfolding any
  any-append_others [] [] h = refl
  any-append_others [] (q ∷ qs) (here, there) = rw here (any-append_others [] qs there)
  any-append_others (p ∷ ps) qs h = ap (λ b. mine p || b) (any-append_others ps qs h)

  filter-append_others :
      (ps qs : List Owned) → All (λ q. mine q ≡ false) qs → filter mine (ps ++ qs) ≡ filter mine ps
  unfolding filter
  filter-append_others [] [] h = refl
  filter-append_others [] (q ∷ qs) (here, there) = rw here (filter-append_others [] qs there)
  filter-append_others (p ∷ ps) qs h = rw (filter-append_others ps qs h) refl

  without_at-append :
      (k : ℕ) (ps qs : List Owned)
      → All (λ q. mine q ≡ false) qs
      → without_at mine k (ps ++ qs) ≡ without_at mine k ps ++ qs
  unfolding without_at any
  without_at-append k [] qs h = without_at-absent k qs (any-append_others [] qs h)
  without_at-append zero (p ∷ ps) qs h = elim (Bool-cases (mine p)) [
    | inl yes' ↦ rw yes' refl
    | inr no' ↦ rw no' (ap (λ rest. p ∷ rest) (without_at-append zero ps qs h))
  ]
  without_at-append (suc k) (p ∷ ps) qs h = elim (Bool-cases (mine p)) [
    | inr no' ↦ rw no' (ap (λ rest. p ∷ rest) (without_at-append (suc k) ps qs h))
    | inl yes' ↦ elim (Bool-cases (any mine ps)) [
      | inr last ↦ rw (yes', any-append_others ps qs h, last) refl
      | inl more ↦
          rw (yes', any-append_others ps qs h, more)
            (ap (λ rest. p ∷ rest) (without_at-append k ps qs h))
    ]
  ]

module _ (env : Environment) (mine : Owned → Bool) where
  pub without_found-append :
      (n : ℕ) (ps qs : List Owned)
      → All (λ q. mine q ≡ false) qs
      → without_found env mine n (ps ++ qs) ≡ without_found env mine n ps ++ qs
  unfolding without_found
  without_found-append zero ps qs h = refl
  without_found-append (suc n) ps qs h =
      let same = ap env.first_found (filter-append_others mine ps qs h) in
      ap (without_found env mine n) (
        ap (λ k. without_at mine k (ps ++ qs)) same
        ∙ without_at-append mine (env.first_found (filter mine ps)) ps qs h)
      ∙ without_found-append n (without_at mine (env.first_found (filter mine ps)) ps) qs h

  pub without_found-without_found :
      (m n k : ℕ) (ps : List Owned)
      → m + n ≡ k
      → without_found env mine n (without_found env mine m ps) ≡ without_found env mine k ps
  unfolding without_found
  without_found-without_found zero n k ps h =
      let same : n ≡ k = omega (arith, h) in ap (λ j. without_found env mine j ps) same
  without_found-without_found (suc m) n zero ps h = absurd (omega (arith, h))
  without_found-without_found (suc m) n (suc k) ps h =
      without_found-without_found m n k (without_at mine (env.first_found (filter mine ps)) ps)
        (omega (arith, h))

  -- What is found is as many of the matching pods as there are, up to the limit.
  pub without_found-IsThinned :
      (n : ℕ) (ps : List Owned)
      → IsThinned mine (min n (count mine ps)) ps (without_found env mine n ps)
  unfolding without_found
  without_found-IsThinned zero ps =
      let nothing : min 0 (count mine ps) ≡ 0 = omega arith in
      subst (λ m. IsThinned mine m ps ps) (sym nothing) (IsThinned-refl mine ps)
  without_found-IsThinned (suc n) ps =
      let k = env.first_found (filter mine ps) in
      let ih = without_found-IsThinned n (without_at mine k ps) in
      elim (Bool-cases (any mine ps)) [
        | inl some' ↦
            let one' = without_at-IsThinned mine k ps some' in
            let fewer = count-IsThinned mine 1 ps (without_at mine k ps) one' in
            IsThinned-trans mine 1 (min n (count mine (without_at mine k ps)))
              (min (suc n) (count mine ps)) ps (without_at mine k ps)
              (without_found env mine (suc n) ps) one' ih (omega (arith, fewer))
        | inr none' ↦
            let same = without_at-absent mine k ps none' in
            let nothing = no-count mine ps none' in
            let size : min n (count mine (without_at mine k ps)) ≡ min (suc n) (count mine ps) =
              ap (λ l. min n (count mine l)) same ∙ omega (arith, nothing) in
            subst
              (λ l.
                IsThinned mine (min (suc n) (count mine ps)) l (without_found env mine (suc n) ps))
              same
              (subst
                (λ m. IsThinned mine m (without_at mine k ps) (without_found env mine (suc n) ps))
                size ih)
      ]
