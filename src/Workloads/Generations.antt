-- ===== src/Workloads/Generations.antt =====
-- The pods that a generation of a deployment is made of.
use nodejs_k8s.Prelude.{
  ℕ, zero, suc, ◌+◌, true, List, [], ◌∷◌, ◌++◌, ◌≡◌, refl, ap, arith, append-nil, append_assoc,
}
use nodejs_k8s.Workloads.Names.{Owner, Owned}
use nodejs_k8s.Workloads.Rollout.{Environment, World, pod_of, create_pods}

module _ (env : Environment) where
  -- the pods that the draws from `first` on name
  unfoldable pub new_pods : Owner → ℕ → ℕ → List Owned
  unfolding pod_of
  new_pods rc first zero = []
  new_pods rc first (suc n) = pod_of rc (env.suffix first) ∷ new_pods rc (suc first) n

  pub new_pods-append :
      (rc : Owner) (first m middle n k : ℕ)
      → first + m ≡ middle
      → m + n ≡ k
      → new_pods rc first m ++ new_pods rc middle n ≡ new_pods rc first k
  unfolding new_pods
  new_pods-append rc first zero middle n k at sum =
      let start : middle ≡ first = omega (arith, at) in
      let same : n ≡ k = omega (arith, sum) in rw (start, same) refl
  new_pods-append rc first (suc m) middle n zero at sum = absurd (omega (arith, sum))
  new_pods-append rc first (suc m) middle n (suc k) at sum =
      ap (λ ps. pod_of rc (env.suffix first) ∷ ps)
        (new_pods-append rc (suc first) m middle n k (omega (arith, at)) (omega (arith, sum)))

  module _ (takes : (n : ℕ) → env.takes n ≡ true) where
    pub create_pods-new_pods :
        (rc : Owner) (n last : ℕ) (w : World)
        → w.drawn + n ≡ last
        → create_pods env rc n w
          ≡ (true, record w { pods = w.pods ++ new_pods rc w.drawn n; drawn = last })
    unfolding create_pods new_pods
    create_pods-new_pods rc zero last w h =
        let same : w.drawn ≡ last = omega (arith, h) in simp (append-nil w.pods, ← same) refl
    create_pods-new_pods rc (suc n) last w h =
        let next : World = record w {
          drawn = suc w.drawn;
          pods = w.pods ++ pod_of rc (env.suffix w.drawn) ∷ [];
        } in
        let rest = create_pods-new_pods rc n last next (omega (arith, h)) in
        let named = pod_of rc (env.suffix w.drawn) in
        rw
          (
            create_pods,
            takes w.drawn,
            ap (λ out. out.0) rest,
            ap (λ out. out.1) rest,
            append_assoc w.pods (named ∷ []) (new_pods rc (suc w.drawn) n),
          )
          refl
