-- ===== src/Scheduler/Filter.antt =====
-- Which nodes can run a pod: `matchesSelector`, `matchesNodeAffinity`, `untoleratedTaint` and
-- `filterNodes` of controllers/scheduler.js.
use nodejs_k8s.Prelude.{
  ℕ, ◌+◌, ◌-◌, ◌*◌, Bool, true, false, not, ◌&&◌, ◌||◌, Option, none, some, List, [], ◌∷◌, map,
  Text, text_eq, ◌==◌, ltb, leb, every, any, if◌then◌else◌,
}
use nodejs_k8s.Prelude.Map
use nodejs_k8s.Prelude.Map.{Map}
use nodejs_k8s.Scheduler.Doubles.{double_sum}
use nodejs_k8s.Scheduler.Types.{
  Effect, prefer_no_schedule, same_effect, Taint, Toleration, Operator, in_values, not_in_values,
  exists_key, does_not_exist, greater, less, other_operator, Expression, Reason, not_ready,
  untolerated, not_selected, too_many_pods, insufficient_cpu, insufficient_memory, Pod, Node,
}
use nodejs_k8s.Scheduler.Usage.{Used, used_on, pod_requests, node_allocatable}

-- a template string's rendering of `undefined`
abbrev pub undefined_text : Text
undefined_text = b'u' ∷ b'n' ∷ b'd' ∷ b'e' ∷ b'f' ∷ b'i' ∷ b'n' ∷ b'e' ∷ b'd' ∷ []

unfoldable pub shown : Option Text → Text
shown none = undefined_text
shown (some t) = t

ready_text : Text
ready_text = b'R' ∷ b'e' ∷ b'a' ∷ b'd' ∷ b'y' ∷ []

true_text : Text
true_text = b'T' ∷ b'r' ∷ b'u' ∷ b'e' ∷ []

unfoldable pub is_ready : Node → Bool
unfolding ready_text true_text
is_ready node = any (λ (c : Text × Text). c.0 == ready_text && c.1 == true_text) node.conditions

unfoldable pub matches_selector : Map Text Text → Map Text Text → Bool
unfolding shown
matches_selector labels selector =
    every (λ (p : Text × Text). shown (Map.get p.0 labels) == p.1) selector

-- `Number(text)` of a plain decimal numeral, 0 for the empty text; any other text counts as NaN
unfoldable pub digits_from : ℕ → Text → Option ℕ
digits_from n [] = some n
digits_from n (c ∷ cs) =
    let rest = digits_from (n * 10 + (c - b'0')) cs in
    if leb b'0' c && leb c b'9' then rest else none

unfoldable pub number_below : Option ℕ → Option ℕ → Bool
number_below (some a) (some b) = ltb a b
number_below _ _ = false

unfoldable pub number_of : Option Text → Option ℕ
unfolding digits_from
number_of none = none
number_of (some t) = digits_from 0 t

unfoldable pub first_value : List Text → Option Text
first_value [] = none
first_value (v ∷ vs) = some v

unfoldable pub is_defined : Option Text → Bool
is_defined none = false
is_defined (some t) = true

unfoldable pub includes : List Text → Text → Bool
includes values value = any (λ v. v == value) values

unfoldable pub meets : Operator → Option Text → List Text → Bool
unfolding shown includes is_defined number_below number_of first_value
meets in_values value values = includes values (shown value)
meets not_in_values value values = not (includes values (shown value))
meets exists_key value values = is_defined value
meets does_not_exist value values = not (is_defined value)
meets greater value values = number_below (number_of (first_value values)) (number_of value)
meets less value values = number_below (number_of value) (number_of (first_value values))
meets other_operator value values = false

unfoldable pub meets_expression : Map Text Text → Expression → Bool
meets_expression labels e = meets e.operator (Map.get e.key labels) e.values

-- the terms are alternatives, and what a term lists is all asked for; no terms ask for nothing
unfoldable pub matches_node_affinity : Map Text Text → Pod → Bool
matches_node_affinity labels pod = elim pod.required_terms [
  | [] ↦ true
  | term ∷ terms ↦ any (λ es. every (meets_expression labels) es) (term ∷ terms)
]

unfoldable pub is_blocking : Effect → Bool
is_blocking prefer_no_schedule = false
is_blocking _ = true

unfoldable pub other_effect : Option Effect → Effect → Bool
other_effect none effect = false
other_effect (some e) effect = not (same_effect e effect)

unfoldable pub tolerates : Toleration → Taint → Bool
unfolding other_effect shown
tolerates t taint =
    if other_effect t.effect taint.effect
    then false
    else if t.exists_operator
    then (elim t.key [ none ↦ true | some k ↦ k == [] || k == taint.key ])
    else (elim t.key [
      | none ↦ false
      | some k ↦ k == taint.key && shown t.value == shown taint.value
    ])

unfoldable pub untolerated_taint : List Toleration → List Taint → Option Taint
unfolding is_blocking tolerates
untolerated_taint tolerations [] = none
untolerated_taint tolerations (taint ∷ taints) =
    let rest = untolerated_taint tolerations taints in
    if not (is_blocking taint.effect) || any (λ t. tolerates t taint) tolerations
    then rest
    else some taint

-- `taint.value ?? ''`
unfoldable pub value_text : Option Text → Text
value_text none = []
value_text (some t) = t

unfoldable pub exceeds : ℕ → Option ℕ → Bool
exceeds n none = false
exceeds n (some limit) = ltb limit n

unfoldable pub lacks_room : Pod → Node → Map Text Used → Option Reason
unfolding exceeds
lacks_room pod node usage =
    let requests = pod_requests pod in
    let allocatable = node_allocatable node in
    let used = used_on node.name usage in
    if exceeds (used.pods + 1) allocatable.pods
    then some too_many_pods
    else if exceeds (double_sum used.cpu requests.cpu) allocatable.cpu
    then some insufficient_cpu
    else if exceeds (double_sum used.memory requests.memory) allocatable.memory
    then some insufficient_memory
    else none

-- the body of `filterNodes`, for one node; `none` where no reason is given
unfoldable pub filter_node : Pod → Map Text Used → Node → Option Reason
unfolding value_text
filter_node pod usage node =
    if not (is_ready node)
    then some not_ready
    else if node.unschedulable
    then some Reason.unschedulable
    else elim (untolerated_taint pod.tolerations node.taints) [
      | some taint ↦ some (untolerated taint.key (value_text taint.value))
      | none ↦
          if not (matches_selector node.labels pod.node_selector)
            || not (matches_node_affinity node.labels pod)
          then some not_selected
          else lacks_room pod node usage
    ]

unfoldable pub filter_nodes : Pod → List Node → Map Text Used → List (Node × Option Reason)
filter_nodes pod nodes usage = map (λ node. (node, filter_node pod usage node)) nodes
