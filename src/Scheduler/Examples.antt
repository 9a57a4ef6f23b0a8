-- ===== src/Scheduler/Examples.antt =====
-- The theorems of the scheduler at concrete inputs: two nodes, a pod that runs, one that waits and one
-- that is too big.
use Prim.Native.Nat.{Ordering}
use nodejs_k8s.Prelude.{
  any, every, ℕ, false, none, some, [], ◌∷◌, ◌≡◌, ◌≢◌, refl, arith, Text, ◌==◌, text_eq, length,
  find, filter, Among,
}
use nodejs_k8s.Prelude.Map
use nodejs_k8s.Prelude.Sort
use nodejs_k8s.Scheduler.Types.{is_finished, Pod, Node, amount, pending, running, Phase}
use nodejs_k8s.Scheduler.Doubles.{double_sum, exact_limit}
use nodejs_k8s.Scheduler.Sums.{AddsExactly}
use nodejs_k8s.Scheduler.Totals.{total}
use nodejs_k8s.Scheduler.Bound.{is_waiting}
use nodejs_k8s.Scheduler.Usage.{pod_requests, node_allocatable, used_on, usage_by_node}
use nodejs_k8s.Scheduler.Filter.{
  filter_nodes, filter_node, is_ready, untolerated_taint, matches_selector, matches_node_affinity,
  lacks_room,
}
use nodejs_k8s.Scheduler.Score.{ranked}
use nodejs_k8s.Scheduler.Schedule.{Cluster, choose, decide, schedule_pod, bind_pod}
use nodejs_k8s.Scheduler.Choice.{IsBest, decide-IsBest}
use nodejs_k8s.Scheduler.Capacity.{Within, schedule_pod-Within}
use nodejs_k8s.Scheduler.Races.{bind_pod_once}

abbrev same_place : Text → Text → Ordering
same_place a b = Ordering.eq

abbrev ready_text : Text
ready_text = b'R' ∷ b'e' ∷ b'a' ∷ b'd' ∷ b'y' ∷ []

abbrev true_text : Text
true_text = b'T' ∷ b'r' ∷ b'u' ∷ b'e' ∷ []

abbrev node_of : Text → ℕ → Node
node_of name cpu = record {
  name = name;
  labels = [];
  conditions = (ready_text, true_text) ∷ [];
  unschedulable = false;
  taints = [];
  allocatable = record { cpu = some (amount cpu); memory = none; pods = some (amount 5) };
  capacity = record { cpu = none; memory = none; pods = none };
}

abbrev pod_of : Text → Text → Phase → ℕ → Pod
pod_of uid node_name phase cpu = record {
  uid = uid;
  namespace = [];
  name = uid;
  node_name = node_name;
  scheduler_name = [];
  phase = phase;
  containers = record { cpu = some (amount cpu); memory = none } ∷ [];
  init_containers = [];
  node_selector = [];
  required_terms = [];
  preferred = [];
  tolerations = [];
  conditions = [];
}

abbrev small : Node
small = node_of (b's' ∷ []) 2

abbrev large : Node
large = node_of (b'l' ∷ []) 4

abbrev runs : Pod
runs = pod_of (b'r' ∷ []) (b'l' ∷ []) running 3

abbrev waits : Pod
waits = pod_of (b'w' ∷ []) [] pending 2

abbrev too_big : Pod
too_big = pod_of (b't' ∷ []) [] pending 9

abbrev cluster : Cluster
cluster = record { nodes = large ∷ small ∷ []; pods = runs ∷ waits ∷ too_big ∷ []; events = [] }

abbrev bound : Cluster
bound = (bind_pod waits (b's' ∷ []) cluster).1

decide-waits : decide same_place waits cluster.nodes cluster.pods ≡ choose small
unfolding decide is_finished filter_nodes filter_node is_ready any untolerated_taint
    matches_selector every matches_node_affinity lacks_room node_allocatable used_on Map.get
    usage_by_node Map.set pod_requests ranked Sort.insert Sort.sort Sort.sort_from double_sum
    exact_limit
decide-waits = refl

named : small.name ≢ []
named h = absurd (ground (arith, h))

decide-IsBest_example : IsBest waits cluster.nodes (usage_by_node cluster.pods) small
decide-IsBest_example = decide-IsBest same_place waits cluster.pods cluster.nodes small decide-waits

adds_exactly : AddsExactly cluster.pods
unfolding total pod_requests double_sum exact_limit
adds_exactly = record { cpu = omega arith; memory = omega arith }

schedule_pod-Within_example :
    (n : Node) × Among n cluster.nodes
    × (n.name ≡ b's' ∷ [])
    × Within n (used_on (b's' ∷ []) (usage_by_node bound.pods))
    × ((other : Text)
        → other ≢ b's' ∷ []
        → used_on other (usage_by_node bound.pods) ≡ used_on other (usage_by_node cluster.pods))
unfolding schedule_pod is_waiting find is_finished filter_nodes filter_node is_ready any
    untolerated_taint matches_selector every matches_node_affinity lacks_room node_allocatable
    used_on Map.get usage_by_node Map.set pod_requests ranked Sort.insert Sort.sort Sort.sort_from
    double_sum exact_limit
schedule_pod-Within_example =
    schedule_pod-Within same_place waits (b's' ∷ []) cluster bound refl adds_exactly named refl

one_uid : length (filter (λ (p : Pod). p.uid == waits.uid) cluster.pods) ≡ 1
unfolding filter
one_uid = refl

bind_pod_once_example : bind_pod waits (b'l' ∷ []) bound ≡ (none, bound)
unfolding bind_pod
bind_pod_once_example =
    bind_pod_once waits (b's' ∷ []) (b'l' ∷ []) cluster bound (omega (arith, one_uid)) named refl
