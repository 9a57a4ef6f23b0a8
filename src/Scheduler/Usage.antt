-- ===== src/Scheduler/Usage.antt =====
-- Requests, room and use of controllers/scheduler.js: `podRequests`, `nodeAllocatable`, `usageByNode`.
use nodejs_k8s.Prelude.{
  ℕ, ◌+◌, max, Bool, true, false, ◌||◌, Option, none, some, List, [], ◌∷◌, Text, text_eq, ◌==◌,
  if◌then◌else◌,
}
use nodejs_k8s.Prelude.Map
use nodejs_k8s.Prelude.Map.{Map}
use nodejs_k8s.Scheduler.Doubles.{double_sum}
use nodejs_k8s.Scheduler.Types.{
  Quantity, quantity_of, or_zero, Container, Requests, Pod, Node, is_finished,
}

-- the containers run together
unfoldable pub sum_requests : List Container → Requests → Requests
unfolding quantity_of or_zero
sum_requests [] sum = sum
sum_requests (c ∷ cs) sum = sum_requests cs (record {
  cpu = double_sum sum.cpu (or_zero (quantity_of c.cpu));
  memory = double_sum sum.memory (or_zero (quantity_of c.memory));
})

-- the init containers run one at a time
unfoldable pub max_requests : List Container → Requests → Requests
unfolding quantity_of or_zero
max_requests [] most = most
max_requests (c ∷ cs) most = max_requests cs (record {
  cpu = max most.cpu (or_zero (quantity_of c.cpu));
  memory = max most.memory (or_zero (quantity_of c.memory));
})

unfoldable pub pod_requests : Pod → Requests
unfolding sum_requests max_requests
pod_requests pod =
    let sum = sum_requests pod.containers (record { cpu = 0; memory = 0 }) in
    let init_max = max_requests pod.init_containers (record { cpu = 0; memory = 0 }) in
    record { cpu = max sum.cpu init_max.cpu; memory = max sum.memory init_max.memory }

-- `none` is `Infinity`
pub record Allocatable : Type 0 where
  pub cpu : Option ℕ
  pub memory : Option ℕ
  pub pods : Option ℕ

-- `allocatable[key] ?? capacity[key]`
unfoldable pub first_given : Option Quantity → Option Quantity → Option Quantity
first_given none capacity = capacity
first_given (some q) capacity = some q

unfoldable pub node_allocatable : Node → Allocatable
unfolding quantity_of first_given
node_allocatable node = record {
  cpu = quantity_of (first_given node.allocatable.cpu node.capacity.cpu);
  memory = quantity_of (first_given node.allocatable.memory node.capacity.memory);
  pods = quantity_of (first_given node.allocatable.pods node.capacity.pods);
}

pub record Used : Type 0 where
  pub cpu : ℕ
  pub memory : ℕ
  pub pods : ℕ

-- `usage.get(name) || { cpu: 0, memory: 0, pods: 0 }`
unfoldable pub used_on : Text → Map Text Used → Used
used_on name usage = elim (Map.get name usage) [
  | none ↦ record { cpu = 0; memory = 0; pods = 0 }
  | some u ↦ u
]

-- an unassigned pod and a finished one count nowhere
unfoldable pub counts : Pod → Bool
unfolding is_finished
counts pod = if pod.node_name == [] || is_finished pod.phase then false else true

unfoldable pub add_usage : Pod → Map Text Used → Map Text Used
unfolding used_on
add_usage pod usage =
    let requests = pod_requests pod in
    let current = used_on pod.node_name usage in
    Map.set pod.node_name
      (record {
        cpu = double_sum current.cpu requests.cpu;
        memory = double_sum current.memory requests.memory;
        pods = current.pods + 1;
      })
      usage

-- the loop of `usageByNode`
unfoldable pub usage_from : List Pod → Map Text Used → Map Text Used
unfolding counts add_usage
usage_from [] usage = usage
usage_from (pod ∷ pods) usage = usage_from pods (if counts pod then add_usage pod usage else usage)

unfoldable pub usage_by_node : List Pod → Map Text Used
unfolding usage_from
usage_by_node pods = usage_from pods []
