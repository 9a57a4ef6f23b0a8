-- ===== src/Raft/Quorum.antt =====
-- The quorum of store/raft.js: more than half of the cluster, so that two quorums share a replica.
use nodejs_k8s.Prelude.{
  ℕ, ◌+◌, ◌≤◌, true, Bool, List, [], ◌∷◌, ◌≡◌, arith, Bool-cases, inl, inr, filter, length, ◌&&◌,
  some, find,
}
use nodejs_k8s.Raft.Types.{Raft}
use nodejs_k8s.Raft.Log.{quorum}

module _ {ℓ} {A : Type ℓ} where
  -- two subsets of a list have, together, at most its length and what they share
  overlap :
      (p q : A → Bool) (xs : List A)
      → length (filter p xs) + length (filter q xs)
        ≤ length xs + length (filter (λ x. p x && q x) xs)
  unfolding filter
  overlap p q [] = omega arith
  overlap p q (x ∷ xs) = ground (arith, overlap p q xs)

  find-filter :
      (p : A → Bool) (xs : List A)
      → 1 ≤ length (filter p xs)
      → (x : A) × ((find p xs ≡ some x) × (p x ≡ true))
  unfolding filter find
  find-filter p [] h = absurd (omega (arith, h))
  find-filter p (x ∷ xs) h = elim (Bool-cases (p x)) [
    | inl yes' ↦ (x, (ground (arith, yes'), yes'))
    | inr no' ↦
        let (y, (e, ok)) = find-filter p xs (ground (arith, h, no')) in
        (y, (ground (arith, e, no'), ok))
  ]

module _ {Cmd State Reply : Type 0} where
  -- In a cluster of this replica and its peers, two sets that are each as large as the quorum have a
  -- replica in common.
  quorums-share :
      (r : Raft Cmd State Reply) (cluster : List ℕ) (p q : ℕ → Bool)
      → length cluster ≡ length r.peers + 1
      → quorum r ≤ length (filter p cluster)
      → quorum r ≤ length (filter q cluster)
      → (id : ℕ) × ((find (λ x. p x && q x) cluster ≡ some id) × ((p id ≡ true) × (q id ≡ true)))
  unfolding quorum
  quorums-share r cluster p q size hp hq =
      let (id, (e, both)) =
        find-filter (λ x. p x && q x) cluster (omega (arith, size, hp, hq, overlap p q cluster)) in
      (id, (e, (ground (arith, both), ground (arith, both))))
