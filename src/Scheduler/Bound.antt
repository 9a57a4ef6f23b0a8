-- ===== src/Scheduler/Bound.antt =====
-- What the use of the nodes is after `bindPod` of controllers/scheduler.js has bound a pod.

use nodejs_k8s.Prelude.{
  ℕ, ◌+◌, ◌≤◌, ◌&&◌, Bool, true, false, Option, some, List, [], ◌∷◌, ◌≡◌, ◌≢◌, refl, ap, arith,
  Text, text_eq, text_beq_iff, ◌==◌, find, Bool-cases, Option-cases, inl, inr, if◌then◌else◌,
  filter, ◌++◌,
}
use nodejs_k8s.Scheduler.Doubles.{exact_limit}
use nodejs_k8s.Scheduler.Types.{Pod, Condition, scheduled, is_finished}
use nodejs_k8s.Scheduler.Usage.{used_on, pod_requests, counts, usage_by_node}
use nodejs_k8s.Scheduler.Schedule.{
  Cluster, update_first, bind_pod, set_scheduled_condition, record_event, is_other_condition,
}
use nodejs_k8s.Scheduler.Sums.{
  share, cpu_share, memory_share, pods_share, AddsExactly, cpu_request, memory_request,
  usage_by_node-exact,
}
use nodejs_k8s.Scheduler.Totals.{total, total-update_first, total-or_same}

-- the stored pod is waiting for a node
unfoldable pub is_waiting : Pod → Pod → Bool
is_waiting pod p = p.uid == pod.uid && p.node_name == []

find-holds : {A : Type 0} (q : A → Bool) (xs : List A) (x : A) → find q xs ≡ some x → q x ≡ true
unfolding find
find-holds q [] x h = absurd (ground (arith, h))
find-holds q (y ∷ ys) x h = elim (Bool-cases (q y)) [
  | inl here ↦ let same : y ≡ x = ground (arith, h, here) in rw (← same) here
  | inr other ↦ find-holds q ys x (ground (arith, h, other))
]

module _ (pod : Pod) (name : Text) (c c' : Cluster)
    (waiting : find (is_waiting pod) c.pods ≡ some pod) (named : name ≢ [])
    (bound : bind_pod pod name c ≡ (some name, c')) (exact : AddsExactly c.pods) where
  bound_total :
      (weight : Pod → ℕ)
      → ((p : Pod) (cs : List Condition) → weight (record p { conditions = cs }) ≡ weight p)
      → total weight c'.pods + weight pod
        ≡ total weight c.pods + weight (record pod { node_name = name })
  unfolding bind_pod set_scheduled_condition record_event is_waiting
  bound_total weight same =
      elim (Option-cases
        (update_first (is_waiting pod) (λ (p : Pod). record p { node_name = name }) c.pods)) [
          | inl none' ↦ absurd (ground (arith, none', bound))
          | inr (ys, some') ↦
              let moved =
                total-update_first weight (is_waiting pod)
                  (λ (p : Pod). record p { node_name = name }) c.pods ys pod waiting some' in
              let kept =
                total-or_same weight (λ (p : Pod). p.uid == pod.uid)
                  (λ (p : Pod). record p {
                    conditions = filter is_other_condition p.conditions ++ scheduled ∷ [];
                  })
                  ys (λ p. same p (filter is_other_condition p.conditions ++ scheduled ∷ [])) in
              let pods' =
                ap (λ (r : Option Text × Cluster). (r.1).pods) (rw (bind_pod, some') at bound) in
              rw (← pods') (omega (arith, moved, kept))
        ]

  unbound : (pod.node_name == []) ≡ true
  unfolding is_waiting
  unbound = ground (arith, find-holds (is_waiting pod) c.pods pod waiting)

  -- All the pods ask for what they asked for before.
  exact' : AddsExactly c'.pods
  unfolding pod_requests
  exact' = record {
    cpu = omega (arith, bound_total cpu_request (λ p cs. refl), exact.cpu);
    memory = omega (arith, bound_total memory_request (λ p cs. refl), exact.memory);
  }

  -- the bound pod counts on its node, and before it counted nowhere
  module _ (unfinished : is_finished pod.phase ≡ false) (k : Text) where
    share-bound :
        (n : ℕ) → share k n (record pod { node_name = name }) ≡ (if name == k then n else 0)
    unfolding share counts
    share-bound n = ground (arith, unfinished, text_beq_iff name [], named)

    share-unbound : (n : ℕ) → share k n pod ≡ 0
    unfolding share counts
    share-unbound n = ground (arith, unbound)

    pub bound-used :
        ((used_on k (usage_by_node c'.pods)).cpu
          ≡ (used_on k (usage_by_node c.pods)).cpu
            + (if name == k then (pod_requests pod).cpu else 0))
        × ((used_on k (usage_by_node c'.pods)).memory
            ≡ (used_on k (usage_by_node c.pods)).memory
              + (if name == k then (pod_requests pod).memory else 0))
        × ((used_on k (usage_by_node c'.pods)).pods
            ≡ (used_on k (usage_by_node c.pods)).pods + (if name == k then 1 else 0))
    unfolding cpu_share memory_share pods_share share counts pod_requests
    bound-used =
        let (a, b, d, _, _) = usage_by_node-exact k c.pods exact in
        let (a', b', d', _, _) = usage_by_node-exact k c'.pods exact' in
        (
          omega (
            arith,
            a,
            a',
            bound_total (cpu_share k) (λ p cs. refl),
            share-bound (pod_requests pod).cpu,
            share-unbound (pod_requests pod).cpu,
          ),
          omega (
            arith,
            b,
            b',
            bound_total (memory_share k) (λ p cs. refl),
            share-bound (pod_requests pod).memory,
            share-unbound (pod_requests pod).memory,
          ),
          omega (
            arith,
            d,
            d',
            bound_total (pods_share k) (λ p cs. refl),
            share-bound 1,
            share-unbound 1,
          ),
        )

  pub bound-small :
      (k : Text)
      → ((used_on k (usage_by_node c'.pods)).cpu ≤ exact_limit)
        × ((used_on k (usage_by_node c'.pods)).memory ≤ exact_limit)
  bound-small k =
      let (a, b, _, small_cpu, small_memory) = usage_by_node-exact k c'.pods exact' in
      (omega (arith, a, small_cpu), omega (arith, b, small_memory))
