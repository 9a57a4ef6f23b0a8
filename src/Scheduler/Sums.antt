-- ===== src/Scheduler/Sums.antt =====
-- `usageByNode` of controllers/scheduler.js as a sum over the pods.
use nodejs_k8s.Prelude.{
  ℕ, ◌+◌, ◌≤◌, ◌&&◌, true, false, List, [], ◌∷◌, ◌≡◌, ◌∙◌, refl, ap, arith, Text, text_eq,
  text_beq_iff, ◌==◌, Bool-cases, inl, inr, if◌then◌else◌,
}
use nodejs_k8s.Prelude.Map
use nodejs_k8s.Prelude.Map.{Map}
use nodejs_k8s.Scheduler.Doubles.{exact_limit, double_sum, double_sum-exact}
use nodejs_k8s.Scheduler.Types.{Pod}
use nodejs_k8s.Scheduler.Usage.{
  Used, used_on, pod_requests, counts, add_usage, usage_from, usage_by_node,
}
use nodejs_k8s.Scheduler.Totals.{total, total-le}

module _ (name : Text) where
  unfoldable pub share : ℕ → Pod → ℕ
  share n p = if counts p && p.node_name == name then n else 0

  unfoldable pub cpu_share : Pod → ℕ
  unfolding share
  cpu_share p = share (pod_requests p).cpu p

  unfoldable pub memory_share : Pod → ℕ
  unfolding share
  memory_share p = share (pod_requests p).memory p

  unfoldable pub pods_share : Pod → ℕ
  unfolding share
  pods_share p = share 1 p

  used_on-set :
      (k : Text) (v : Used) (u : Map Text Used)
      → used_on name (Map.set k v u) ≡ (if k == name then v else used_on name u)
  unfolding used_on
  used_on-set k v u = ground (arith, Map.get-set k name v u)

  -- what a pod's entry adds on this node
  Adds : Used → Used → Pod → Type 0
  Adds before after p =
      (after.cpu ≡ before.cpu + cpu_share p)
      × (after.memory ≡ before.memory + memory_share p)
      × (after.pods ≡ before.pods + pods_share p)

  -- what a pod adds on this node: all that it asks for if it counts here, and else nothing
  share-here : (n : ℕ) (p : Pod) → counts p ≡ true → (p.node_name == name) ≡ true → share n p ≡ n
  unfolding share
  share-here n p h same = rw (h, same) refl

  share-elsewhere : (n : ℕ) (p : Pod) → (p.node_name == name) ≡ false → share n p ≡ 0
  unfolding share
  share-elsewhere n p other = ground (arith, other)

  share-uncounted : (n : ℕ) (p : Pod) → counts p ≡ false → share n p ≡ 0
  unfolding share
  share-uncounted n p h = rw h refl

  add_usage-Adds :
      (p : Pod) (u : Map Text Used)
      → counts p ≡ true
      → (used_on name u).cpu + cpu_share p ≤ exact_limit
      → (used_on name u).memory + memory_share p ≤ exact_limit
      → Adds (used_on name u) (used_on name (add_usage p u)) p
  unfolding add_usage cpu_share memory_share pods_share Adds
  add_usage-Adds p u h cpu_small memory_small =
      let current = used_on p.node_name u in
      let v : Used = record {
        cpu = double_sum current.cpu (pod_requests p).cpu;
        memory = double_sum current.memory (pod_requests p).memory;
        pods = current.pods + 1;
      } in
      let set' = used_on-set p.node_name v u in
      elim (Bool-cases (p.node_name == name)) [
        | inl same ↦
            let e : current ≡ used_on name u =
              ap (λ k. used_on k u) ((text_beq_iff p.node_name name).0 same) in
            let here : used_on name (add_usage p u) ≡ v = rw same at set' in
            let cpu' = share-here (pod_requests p).cpu p h same in
            let memory' = share-here (pod_requests p).memory p h same in
            let cpu_exact =
              double_sum-exact current.cpu (pod_requests p).cpu
                (omega (arith, cpu', ap (λ (x : Used). x.cpu) e, cpu_small)) in
            let memory_exact =
              double_sum-exact current.memory (pod_requests p).memory
                (omega (arith, memory', ap (λ (x : Used). x.memory) e, memory_small)) in
            (
              omega (
                arith,
                ap (λ (x : Used). x.cpu) here,
                cpu_exact,
                ap (λ (x : Used). x.cpu) e,
                cpu',
              ),
              omega (
                arith,
                ap (λ (x : Used). x.memory) here,
                memory_exact,
                ap (λ (x : Used). x.memory) e,
                memory',
              ),
              omega (
                arith,
                ap (λ (x : Used). x.pods) here,
                ap (λ (x : Used). x.pods) e,
                share-here 1 p h same,
              ),
            )
        | inr other ↦
            let there : used_on name (add_usage p u) ≡ used_on name u = rw other at set' in
            (
              omega (
                arith,
                ap (λ (x : Used). x.cpu) there,
                share-elsewhere (pod_requests p).cpu p other,
              ),
              omega (
                arith,
                ap (λ (x : Used). x.memory) there,
                share-elsewhere (pod_requests p).memory p other,
              ),
              omega (arith, ap (λ (x : Used). x.pods) there, share-elsewhere 1 p other),
            )
      ]

  uncounted :
      (p : Pod) → counts p ≡ false → (cpu_share p ≡ 0) × (memory_share p ≡ 0) × (pods_share p ≡ 0)
  unfolding cpu_share memory_share pods_share
  uncounted p h = (share-uncounted _ p h, share-uncounted _ p h, share-uncounted 1 p h)

  usage_from-total :
      (pods : List Pod) (u : Map Text Used)
      → (used_on name u).cpu + total cpu_share pods ≤ exact_limit
      → (used_on name u).memory + total memory_share pods ≤ exact_limit
      → ((used_on name (usage_from pods u)).cpu ≡ (used_on name u).cpu + total cpu_share pods)
        × ((used_on name (usage_from pods u)).memory
            ≡ (used_on name u).memory + total memory_share pods)
        × ((used_on name (usage_from pods u)).pods ≡ (used_on name u).pods + total pods_share pods)
  unfolding usage_from total Adds
  usage_from-total [] u cpu_small memory_small = (omega arith, omega arith, omega arith)
  usage_from-total (p ∷ pods) u cpu_small memory_small = elim (Bool-cases (counts p)) [
    | inl h ↦
        let (a, b, c) =
          add_usage-Adds p u h (omega (arith, cpu_small)) (omega (arith, memory_small)) in
        let (x, y, z) =
          usage_from-total pods (add_usage p u) (omega (arith, a, cpu_small))
            (omega (arith, b, memory_small)) in
        rw h (omega (arith, a, x), omega (arith, b, y), omega (arith, c, z))
    | inr h ↦
        let (cpu', memory', pods') = uncounted p h in
        let (x, y, z) =
          usage_from-total pods u (omega (arith, cpu_small)) (omega (arith, memory_small)) in
        rw h (omega (arith, cpu', x), omega (arith, memory', y), omega (arith, pods', z))
  ]

  -- The use of a node is the sum of what its unfinished pods ask for, if the sums are exact.
  pub usage_by_node-total :
      (pods : List Pod)
      → total cpu_share pods ≤ exact_limit
      → total memory_share pods ≤ exact_limit
      → ((used_on name (usage_by_node pods)).cpu ≡ total cpu_share pods)
        × ((used_on name (usage_by_node pods)).memory ≡ total memory_share pods)
        × ((used_on name (usage_by_node pods)).pods ≡ total pods_share pods)
  unfolding usage_by_node used_on Map.get
  usage_by_node-total pods cpu_small memory_small =
      let (x, y, z) =
        usage_from-total pods [] (omega (arith, cpu_small)) (omega (arith, memory_small)) in
      (x ∙ omega arith, y ∙ omega arith, z ∙ omega arith)

abbrev pub cpu_request : Pod → ℕ
cpu_request p = (pod_requests p).cpu

abbrev pub memory_request : Pod → ℕ
memory_request p = (pod_requests p).memory

-- All that the pods ask for is at most 2 ^ 53 of the unit, so that doubles add it exactly.
pub record AddsExactly (pods : List Pod) : Type 0 where
  pub cpu : total cpu_request pods ≤ exact_limit
  pub memory : total memory_request pods ≤ exact_limit

share-le : (name : Text) (n : ℕ) (p : Pod) → share name n p ≤ n
unfolding share
share-le name n p = ground arith

-- With exact sums, the use of a node is the sum of what its unfinished pods ask for.
pub usage_by_node-exact :
    (name : Text) (pods : List Pod)
    → AddsExactly pods
    → ((used_on name (usage_by_node pods)).cpu ≡ total (cpu_share name) pods)
      × ((used_on name (usage_by_node pods)).memory ≡ total (memory_share name) pods)
      × ((used_on name (usage_by_node pods)).pods ≡ total (pods_share name) pods)
      × (total (cpu_share name) pods ≤ exact_limit)
      × (total (memory_share name) pods ≤ exact_limit)
unfolding cpu_share memory_share
usage_by_node-exact name pods exact =
    let cpu_small : total (cpu_share name) pods ≤ exact_limit = omega (
      arith,
      exact.cpu,
      total-le (cpu_share name) cpu_request pods (λ p. share-le name (cpu_request p) p),
    ) in
    let memory_small : total (memory_share name) pods ≤ exact_limit = omega (
      arith,
      exact.memory,
      total-le (memory_share name) memory_request pods (λ p. share-le name (memory_request p) p),
    ) in
    let (a, b, c) = usage_by_node-total name pods cpu_small memory_small in
    (a, b, c, cpu_small, memory_small)
