-- ===== src/Scheduler/Capacity.antt =====
-- A pod that controllers/scheduler.js binds fits on its node, with everything that is there.
use Prim.Native.Nat.{Ordering}
use mathlib.Core.Path.{subst}
use nodejs_k8s.Prelude.{
  ◌+◌, ◌≤◌, ◌∙◌, true, false, none, some, List, [], ◌≡◌, ◌≢◌, refl, sym, arith, Text, text_eq,
  text_beq_iff, beq_refl, ◌==◌, find, Option-cases, Among, inl, inr, if◌then◌else◌,
}
use nodejs_k8s.Prelude.Map.{Map}
use nodejs_k8s.Scheduler.Doubles.{exact_limit, double_sum, double_sum-exact}
use nodejs_k8s.Scheduler.Types.{Pod, Node, is_finished}
use nodejs_k8s.Scheduler.Usage.{Used, used_on, pod_requests, node_allocatable, usage_by_node}
use nodejs_k8s.Scheduler.Filter.{filter_node, lacks_room, exceeds}
use nodejs_k8s.Scheduler.Schedule.{
  Cluster, Decision, leave, refuse, choose, update_first, bind_pod, decide, act, schedule_pod,
  is_for_others,
}
use nodejs_k8s.Scheduler.Sums.{AddsExactly}
use nodejs_k8s.Scheduler.Choice.{decide-IsBest}
use nodejs_k8s.Scheduler.Bound.{is_waiting, bound-used, bound-small}

-- what is used does not exceed what the node has to give
pub record Within (node : Node) (used : Used) : Type 0 where
  pub pods : exceeds used.pods (node_allocatable node).pods ≡ false
  pub cpu : exceeds used.cpu (node_allocatable node).cpu ≡ false
  pub memory : exceeds used.memory (node_allocatable node).memory ≡ false

-- the use of a node with one more pod
abbrev pub with_pod : Pod → Used → Used
with_pod pod used = record {
  cpu = double_sum used.cpu (pod_requests pod).cpu;
  memory = double_sum used.memory (pod_requests pod).memory;
  pods = used.pods + 1;
}

passes-room :
    (pod : Pod) (usage : Map Text Used) (node : Node)
    → filter_node pod usage node ≡ none
    → lacks_room pod node usage ≡ none
unfolding filter_node
passes-room pod usage node h = ground (arith, h)

passes-Within :
    (pod : Pod) (usage : Map Text Used) (node : Node)
    → filter_node pod usage node ≡ none
    → Within node (with_pod pod (used_on node.name usage))
unfolding lacks_room
passes-Within pod usage node h =
    let room = passes-room pod usage node h in
    record {
      pods = ground (arith, room);
      cpu = ground (arith, room);
      memory = ground (arith, room);
    }

bound-name :
    (pod : Pod) (name name' : Text) (c c' : Cluster)
    → bind_pod pod name c ≡ (some name', c')
    → name ≡ name'
unfolding bind_pod
bound-name pod name name' c c' h =
    elim (Option-cases
      (update_first (is_waiting pod) (λ (p : Pod). record p { node_name = name }) c.pods)) [
        | inl none' ↦ absurd (unfold is_waiting in ground (arith, h, none'))
        | inr (ys, some') ↦ unfold is_waiting in ground (arith, h, some')
      ]

-- the use of node `k` has grown by the pod's requests if it is the node of that name
abbrev Grown : Pod → Text → Text → Used → Used → Type 0
Grown pod name k before after =
    (after.cpu ≡ before.cpu + (if name == k then (pod_requests pod).cpu else 0))
    × (after.memory ≡ before.memory + (if name == k then (pod_requests pod).memory else 0))
    × (after.pods ≡ before.pods + (if name == k then 1 else 0))

Used-ext : (u v : Used) → u.cpu ≡ v.cpu → u.memory ≡ v.memory → u.pods ≡ v.pods → u ≡ v
Used-ext u v a b d = λ i. record { cpu = a i; memory = b i; pods = d i }

on_node :
    (pod : Pod) (name : Text) (before after : Used)
    → Grown pod name name before after
    → after.cpu ≤ exact_limit
    → after.memory ≤ exact_limit
    → with_pod pod before ≡ after
on_node pod name before after (a, b, d) cpu_small memory_small =
    let same : (name == name) ≡ true = beq_refl name in
    let a' : after.cpu ≡ before.cpu + (pod_requests pod).cpu = rw same at a in
    let b' : after.memory ≡ before.memory + (pod_requests pod).memory = rw same at b in
    let d' : after.pods ≡ before.pods + 1 = rw same at d in
    Used-ext (with_pod pod before) after
      (double_sum-exact before.cpu (pod_requests pod).cpu (omega (arith, a', cpu_small)) ∙ sym a')
      (double_sum-exact before.memory (pod_requests pod).memory (omega (arith, b', memory_small))
        ∙ sym b')
      (sym d')

elsewhere :
    (pod : Pod) (name other : Text) (before after : Used)
    → name ≢ other
    → Grown pod name other before after
    → after ≡ before
elsewhere pod name other before after ne (a, b, d) =
    let differ : (name == other) ≡ false = ground (arith, text_beq_iff name other, ne) in
    Used-ext after before (ground (arith, a, differ)) (ground (arith, b, differ))
      (ground (arith, d, differ))

module _ (locale_compare : Text → Text → Ordering) where
  chosen :
      (pod : Pod) (name : Text) (d : Decision) (c c' : Cluster)
      → act locale_compare pod d c ≡ (some name, c')
      → (n : Node) × (d ≡ choose n) × (n.name ≡ name)
  unfolding act
  chosen pod name leave c c' h = absurd (ground (arith, h))
  chosen pod name (refuse summary) c c' h = absurd (ground (arith, h))
  chosen pod name (choose n) c c' h = (n, refl, bound-name pod n.name name c c' h)

  unfinished-choose :
      (pod : Pod) (nodes : List Node) (pods : List Pod) (n : Node)
      → decide locale_compare pod nodes pods ≡ choose n
      → is_finished pod.phase ≡ false
  unfolding decide is_for_others
  unfinished-choose pod nodes pods n h = ground (arith, h)

  -- If scheduling a waiting pod binds it to a named node, the node is one of the cluster's, and with the
  -- pod on it the use of the node, counted anew from the pods, stays within its pods, cpu and memory; the
  -- use of every other node stays what it was, if all that the pods of the cluster ask for is at most
  -- 2 ^ 53 of a unit in which it is whole, so that doubles add it exactly.
  pub schedule_pod-Within :
      (pod : Pod) (name : Text) (c c' : Cluster)
      → find (is_waiting pod) c.pods ≡ some pod
      → AddsExactly c.pods
      → name ≢ []
      → schedule_pod locale_compare pod c ≡ (some name, c')
      → (n : Node) × Among n c.nodes
        × (n.name ≡ name)
        × Within n (used_on name (usage_by_node c'.pods))
        × ((other : Text)
            → other ≢ name
            → used_on other (usage_by_node c'.pods) ≡ used_on other (usage_by_node c.pods))
  unfolding schedule_pod act
  schedule_pod-Within pod name c c' waiting exact named h =
      let (n, d, same) = chosen pod name (decide locale_compare pod c.nodes c.pods) c c' h in
      let best = decide-IsBest locale_compare pod c.pods c.nodes n d in
      let bound : bind_pod pod name c ≡ (some name, c') =
        subst (λ k. bind_pod pod k c ≡ (some name, c')) same (rw d at h) in
      let unfinished = unfinished-choose pod c.nodes c.pods n d in
      let used = λ (k : Text). bound-used pod name c c' waiting named bound exact unfinished k in
      let (in_cpu, in_memory) = bound-small pod name c c' waiting named bound exact name in
      let more : with_pod pod (used_on name (usage_by_node c.pods))
          ≡ used_on name (usage_by_node c'.pods) =
        on_node pod name (used_on name (usage_by_node c.pods))
          (used_on name (usage_by_node c'.pods)) (used name) in_cpu in_memory in
      let fits = passes-Within pod (usage_by_node c.pods) n best.passes in
      (
        n,
        best.there,
        same,
        subst (Within n) more
            (subst (λ k. Within n (with_pod pod (used_on k (usage_by_node c.pods)))) same fits),
        λ other ne.
            elsewhere pod name other (used_on other (usage_by_node c.pods))
              (used_on other (usage_by_node c'.pods)) (λ e. ne (sym e)) (used other),
      )
