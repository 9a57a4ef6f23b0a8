-- ===== src/Scheduler/Score.antt =====
-- Which of the nodes that can run a pod is best: `scoreNode` of controllers/scheduler.js, and the sort of
-- the candidates. A score is a fraction, where the source has a double; `localeCompare`, which goes by
-- the locale's tables, is a parameter.
use Prim.Native.Nat.{Ordering}
use nodejs_k8s.Prelude.{
  ℕ, ◌+◌, ◌-◌, ◌*◌, Bool, Option, none, some, List, [], ◌∷◌, map, Text, text_eq, ltb, every,
  if◌then◌else◌, nat_beq,
}
use nodejs_k8s.Prelude.Sort.{sort}
use nodejs_k8s.Prelude.Map
use nodejs_k8s.Prelude.Map.{Map}
use nodejs_k8s.Scheduler.Types.{in_values, Expression, Preference, Pod, Node}
use nodejs_k8s.Scheduler.Usage.{Used, used_on, pod_requests, node_allocatable}
use nodejs_k8s.Scheduler.Filter.{shown, includes, is_defined}

pub record Score : Type 0 where
  pub num : ℕ
  pub den : ℕ

-- `Math.max(0, total - used - asked) / total`, and 1 where the total is infinite or 0
unfoldable pub fraction : Option ℕ → ℕ → ℕ → Score
fraction none used asked = record { num = 1; den = 1 }
fraction (some total) used asked =
    if nat_beq total 0
    then record { num = 1; den = 1 }
    else record { num = total - used - asked; den = total }

-- an operator other than `In` asks only that the label be there
unfoldable pub prefers : Map Text Text → Expression → Bool
prefers labels e =
    let value = Map.get e.key labels in
    elim e.operator [ in_values ↦ includes e.values (shown value) | _ ↦ is_defined value ]

unfoldable pub preference_bonus : Map Text Text → List Preference → ℕ
unfolding prefers
preference_bonus labels [] = 0
preference_bonus labels (term ∷ terms) =
    (if every (prefers labels) term.expressions then term.weight else 0)
    + preference_bonus labels terms

unfoldable pub score_node : Pod → Map Text Used → Node → Score
unfolding fraction preference_bonus
score_node pod usage node =
    let allocatable = node_allocatable node in
    let used = used_on node.name usage in
    let requests = pod_requests pod in
    let cpu_free = fraction allocatable.cpu used.cpu requests.cpu in
    let memory_free = fraction allocatable.memory used.memory requests.memory in
    let den = cpu_free.den * memory_free.den in
    record {
      num =
          50 * (cpu_free.num * memory_free.den + memory_free.num * cpu_free.den)
          + preference_bonus node.labels pod.preferred * den;
      den = den;
    }

unfoldable pub score_below : Score → Score → Bool
score_below a b = ltb (a.num * b.den) (b.num * a.den)

abbrev pub Candidate : Type 0
Candidate = Node × Score

module _ (locale_compare : Text → Text → Ordering) where
  unfoldable pub compare_candidates : Candidate → Candidate → Ordering
  unfolding score_below
  compare_candidates a b =
      if score_below a.1 b.1
      then Ordering.gt
      else if score_below b.1 a.1
      then Ordering.lt
      else locale_compare (a.0).name (b.0).name

  unfoldable pub ranked : Pod → Map Text Used → List Node → List Candidate
  ranked pod usage feasible =
      sort compare_candidates (map (λ node. (node, score_node pod usage node)) feasible)
