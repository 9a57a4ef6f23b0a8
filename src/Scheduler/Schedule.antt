-- ===== src/Scheduler/Schedule.antt =====
-- `schedulePod` and `bindPod` of controllers/scheduler.js, over the collections of nodes, pods and
-- events. The source waits between the reads and the write, so that `decide`, on what was read, and
-- `act`, on what is there by then, are two steps; `schedule_pod` is one right after the other.
use Prim.Native.Nat.{Ordering}
use nodejs_k8s.Prelude.{
  ℕ, ◌+◌, Bool, true, false, not, ◌&&◌, ◌||◌, Option, none, some, List, [], ◌∷◌, ◌++◌, Text,
  text_eq, ◌==◌, filter, length, if◌then◌else◌,
}
use nodejs_k8s.Scheduler.Types.{
  Reason, not_ready, untolerated, not_selected, too_many_pods, insufficient_cpu,
  insufficient_memory, Summary, Condition, scheduled, unschedulable_because, other_condition, Pod,
  Node, is_finished,
}
use nodejs_k8s.Scheduler.Usage.{usage_by_node}
use nodejs_k8s.Scheduler.Filter.{filter_nodes}
use nodejs_k8s.Scheduler.Score.{Candidate, ranked}

unfoldable pub same_reason : Reason → Reason → Bool
same_reason not_ready not_ready = true
same_reason Reason.unschedulable Reason.unschedulable = true
same_reason (untolerated k v) (untolerated k' v') = k == k' && v == v'
same_reason not_selected not_selected = true
same_reason too_many_pods too_many_pods = true
same_reason insufficient_cpu insufficient_cpu = true
same_reason insufficient_memory insufficient_memory = true
same_reason _ _ = false

-- `counts.set(reason, (counts.get(reason) || 0) + 1)`
unfoldable pub count_reason : Reason → List (Reason × ℕ) → List (Reason × ℕ)
unfolding same_reason
count_reason reason [] = (reason, 1) ∷ []
count_reason reason ((r, n) ∷ counts) =
    let rest = count_reason reason counts in
    if same_reason r reason then (r, n + 1) ∷ counts else (r, n) ∷ rest

unfoldable pub count_reasons : List Reason → List (Reason × ℕ) → List (Reason × ℕ)
unfolding count_reason
count_reasons [] counts = counts
count_reasons (reason ∷ reasons) counts = count_reasons reasons (count_reason reason counts)

unfoldable pub summarise : List Reason → ℕ → Summary
unfolding count_reasons
summarise rejections total = record { total = total; counts = count_reasons rejections [] }

-- what a scheduler's event says
pub data Note : Type 0 where
  failed_scheduling : Summary → Note
  assigned_to : Text → Note

pub record PodEvent : Type 0 where
  pub namespace : Text
  pub pod : Text
  pub note : Note

pub record Cluster : Type 0 where
  pub nodes : List Node
  pub pods : List Pod
  pub events : List PodEvent

unfoldable pub put_before {ℓ} : {A : Type ℓ} → A → Option (List A) → Option (List A)
put_before x none = none
put_before x (some xs) = some (x ∷ xs)

-- `findOneAndUpdate`: the first document that the filter takes, if any
unfoldable pub update_first {ℓ} : {A : Type ℓ} → (A → Bool) → (A → A) → List A → Option (List A)
unfolding put_before
update_first p f [] = none
update_first p f (x ∷ xs) =
    let rest = put_before x (update_first p f xs) in if p x then some (f x ∷ xs) else rest

unfoldable pub or_same {ℓ} : {A : Type ℓ} → A → Option A → A
or_same a none = a
or_same a (some b) = b

default_namespace : Text
default_namespace = b'd' ∷ b'e' ∷ b'f' ∷ b'a' ∷ b'u' ∷ b'l' ∷ b't' ∷ []

scheduler_name : Text
scheduler_name =
    b'd' ∷ b'e' ∷ b'f' ∷ b'a' ∷ b'u' ∷ b'l' ∷ b't' ∷ b'-' ∷ b's' ∷ b'c' ∷ b'h' ∷ b'e' ∷ b'd' ∷ b'u'
    ∷ b'l' ∷ b'e' ∷ b'r' ∷ []

unfoldable pub record_event : Pod → Note → Cluster → Cluster
unfolding default_namespace
record_event pod note c = record c {
  events =
      c.events
      ++ record {
        namespace = if pod.namespace == [] then default_namespace else pod.namespace;
        pod = pod.name;
        note = note;
      }
        ∷ [];
}

unfoldable pub is_other_condition : Condition → Bool
is_other_condition (other_condition kind status) = true
is_other_condition _ = false

-- the condition replaces any `PodScheduled` that is there
unfoldable pub set_scheduled_condition : Pod → Condition → Cluster → Cluster
unfolding update_first or_same is_other_condition
set_scheduled_condition pod condition c = record c {
  pods = or_same c.pods (
      update_first (λ (p : Pod). p.uid == pod.uid)
        (λ (p : Pod). record p {
          conditions = filter is_other_condition p.conditions ++ condition ∷ [];
        })
        c.pods);
}

-- the update asks that the pod be still unbound
unfoldable pub bind_pod : Pod → Text → Cluster → Option Text × Cluster
unfolding update_first set_scheduled_condition record_event
bind_pod pod node_name c =
    elim (update_first (λ (p : Pod). p.uid == pod.uid && p.node_name == [])
      (λ (p : Pod). record p { node_name = node_name }) c.pods) [
        | none ↦ (none, c)
        | some pods ↦ (
          some node_name,
          record_event pod (assigned_to node_name)
              (set_scheduled_condition pod scheduled (record c { pods = pods })),
        )
      ]

pub data Decision : Type 0 where
  leave : Decision
  refuse : Summary → Decision
  choose : Node → Decision

-- `results.filter((r) => !r.reason)`
unfoldable pub feasible_of : List (Node × Option Reason) → List Node
feasible_of [] = []
feasible_of ((node, none) ∷ results) = node ∷ feasible_of results
feasible_of ((node, some reason) ∷ results) = feasible_of results

unfoldable pub reasons_of : List (Node × Option Reason) → List Reason
reasons_of [] = []
reasons_of ((node, none) ∷ results) = reasons_of results
reasons_of ((node, some reason) ∷ results) = reason ∷ reasons_of results

unfoldable pub is_for_others : Pod → Bool
unfolding scheduler_name
is_for_others pod =
    pod.uid == []
    || not (pod.node_name == [])
    || (not (pod.scheduler_name == []) && not (pod.scheduler_name == scheduler_name))
    || is_finished pod.phase

-- the node at the head of the sorted candidates
unfoldable pub first_of : List Candidate → Decision
first_of [] = leave
first_of (candidate ∷ candidates) = choose candidate.0

module _ (locale_compare : Text → Text → Ordering) where
  unfoldable pub decide_among : Pod → List Node → List Pod → Decision
  unfolding first_of feasible_of reasons_of summarise
  decide_among pod nodes pods =
      let usage = usage_by_node pods in
      let results = filter_nodes pod nodes usage in
      elim (feasible_of results) [
        | [] ↦ refuse (summarise (reasons_of results) (length nodes))
        | node ∷ others ↦ first_of (ranked locale_compare pod usage (node ∷ others))
      ]

  unfoldable pub decide : Pod → List Node → List Pod → Decision
  unfolding is_for_others decide_among
  decide pod nodes pods =
      if is_for_others pod
      then leave
      else elim nodes [ [] ↦ leave | node ∷ others ↦ decide_among pod (node ∷ others) pods ]

  unfoldable pub act : Pod → Decision → Cluster → Option Text × Cluster
  unfolding bind_pod set_scheduled_condition record_event
  act pod leave c = (none, c)
  act pod (refuse summary) c = (
    none,
    record_event pod (failed_scheduling summary)
        (set_scheduled_condition pod (unschedulable_because summary) c),
  )
  act pod (choose node) c = bind_pod pod node.name c

  unfoldable pub schedule_pod : Pod → Cluster → Option Text × Cluster
  unfolding decide act
  schedule_pod pod c = act pod (decide pod c.nodes c.pods) c
