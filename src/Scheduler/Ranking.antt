-- ===== src/Scheduler/Ranking.antt =====
-- The order of scores in controllers/scheduler.js, and the candidate at the head of the sorted ones.
use Prim.Native.Nat.{Ordering}
use native.Mathlib.Nat.{mul-pos, mul-le-mul_right, le_of_mul-le-mul_right, mul_right_comm}
use nodejs_k8s.Prelude.{
  ℕ, ◌*◌, ◌≤◌, ◌<◌, false, Option, none, some, List, [], ◌∷◌, ◌≡◌, refl, arith, Text, text_eq, All,
  All-weaken, inl, inr, ◌⊎◌,
}
use nodejs_k8s.Prelude.Sort.{insert, sort_from, sort, insert-All}
use nodejs_k8s.Prelude.Map.{Map}
use nodejs_k8s.Scheduler.Types.{Pod, Node}
use nodejs_k8s.Scheduler.Usage.{Used, used_on, pod_requests, node_allocatable}
use nodejs_k8s.Scheduler.Score.{
  Score, fraction, score_node, score_below, Candidate, compare_candidates,
}

-- every score is a fraction, and no other is above `a`
unfoldable pub IsScore : Score → Type 0
IsScore s = 0 < s.den

abbrev pub AtLeast : Score → Score → Type 0
AtLeast a b = score_below a b ≡ false

AtLeast-iff :
    (a b : Score)
    → (AtLeast a b → b.num * a.den ≤ a.num * b.den) × (b.num * a.den ≤ a.num * b.den → AtLeast a b)
unfolding score_below
AtLeast-iff a b = (λ h. ground (arith, h), λ h. ground (arith, h))

AtLeast-trans : (a b c : Score) → IsScore b → AtLeast a b → AtLeast b c → AtLeast a c
unfolding IsScore
AtLeast-trans a b c pos p q =
    let x = mul-le-mul_right c.den ((AtLeast-iff a b).0 p) in
    let y = mul-le-mul_right a.den ((AtLeast-iff b c).0 q) in
    (AtLeast-iff a c).1 (
      le_of_mul-le-mul_right {k = b.den}
        (omega (
          arith,
          x,
          y,
          mul_right_comm b.num a.den c.den,
          mul_right_comm a.num b.den c.den,
          mul_right_comm c.num b.den a.den,
        ))
        pos)

pub AtLeast-refl : (a : Score) → AtLeast a a
AtLeast-refl a = (AtLeast-iff a a).1 (omega arith)

den_pos : (total : Option ℕ) (used asked : ℕ) → 0 < (fraction total used asked).den
unfolding fraction
den_pos none used asked = omega arith
den_pos (some total) used asked = ground arith

pub IsScore-score_node :
    (pod : Pod) (usage : Map Text Used) (node : Node) → IsScore (score_node pod usage node)
unfolding IsScore score_node
IsScore-score_node pod usage node =
    let allocatable = node_allocatable node in
    let used = used_on node.name usage in
    let requests = pod_requests pod in
    mul-pos (den_pos allocatable.cpu used.cpu requests.cpu)
      (den_pos allocatable.memory used.memory requests.memory)

-- the first of a list is at least as good as each of them
unfoldable pub Leads : List Candidate → Type 0
Leads [] = Unit
Leads (h ∷ rest) = All (λ (x : Candidate). AtLeast h.1 x.1) rest

abbrev pub Scored : Candidate → Type 0
Scored c = IsScore c.1

module _ (locale_compare : Text → Text → Ordering) where
  compare-gt :
      (a b : Candidate) → compare_candidates locale_compare b a ≡ Ordering.gt → AtLeast a.1 b.1
  unfolding compare_candidates score_below
  compare-gt a b h = ground (arith, h)

  compare-other :
      (a b : Candidate)
      → (compare_candidates locale_compare b a ≡ Ordering.lt)
        ⊎ (compare_candidates locale_compare b a ≡ Ordering.eq)
      → AtLeast b.1 a.1
  unfolding compare_candidates
  compare-other a b (inl h) = ground (arith, h)
  compare-other a b (inr h) = ground (arith, h)

  insert-Leads :
      (a : Candidate) (xs : List Candidate)
      → Scored a
      → All Scored xs
      → Leads xs
      → Leads (insert (compare_candidates locale_compare) a xs)
  unfolding insert Leads
  insert-Leads a [] sa ss l = tt
  insert-Leads a (b ∷ bs) sa (sb, ss) l = by (compare_candidates locale_compare b a) refl
    where
      later :
          AtLeast b.1 a.1
          → All
              (λ (x : Candidate). AtLeast b.1 x.1)
              (insert (compare_candidates locale_compare) a bs)
      later h =
          insert-All (compare_candidates locale_compare) (λ (x : Candidate). AtLeast b.1 x.1) a bs h
            l

      by :
          (o : Ordering)
          → compare_candidates locale_compare b a ≡ o
          → Leads (insert (compare_candidates locale_compare) a (b ∷ bs))
      by Ordering.gt h =
          let first = compare-gt a b h in
          rw (insert, h)
            (
              first,
              All-weaken (λ (x : Candidate). AtLeast b.1 x.1) (λ (x : Candidate). AtLeast a.1 x.1)
                  bs (λ x q. AtLeast-trans a.1 b.1 x.1 sb first q) l,
            )
      by Ordering.lt h = rw (insert, h) (later (compare-other a b (inl h)))
      by Ordering.eq h = rw (insert, h) (later (compare-other a b (inr h)))

  sort_from-Leads :
      (sorted as' : List Candidate)
      → All Scored sorted
      → All Scored as'
      → Leads sorted
      → Leads (sort_from (compare_candidates locale_compare) sorted as')
  unfolding sort_from
  sort_from-Leads sorted [] ss sa l = l
  sort_from-Leads sorted (a ∷ as') ss (sa, sas) l =
      sort_from-Leads (insert (compare_candidates locale_compare) a sorted) as'
        (insert-All (compare_candidates locale_compare) Scored a sorted sa ss) sas
        (insert-Leads a sorted sa ss l)

  pub best-Leads :
      (candidates : List Candidate)
      → All Scored candidates
      → Leads (sort (compare_candidates locale_compare) candidates)
  unfolding sort Leads
  best-Leads candidates h = sort_from-Leads [] candidates tt h tt
