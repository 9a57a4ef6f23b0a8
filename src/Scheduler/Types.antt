-- ===== src/Scheduler/Types.antt =====
-- What controllers/scheduler.js reads of pods and nodes. A quantity is the double that it is read as, in a
-- unit, a power of two, in which it is whole; it is `unreadable` where `parseQuantity` gives NaN. Text
-- that is missing where the source tests it for truth is empty.
use nodejs_k8s.Prelude.{ℕ, Bool, true, false, Option, none, some, Text, List}
use nodejs_k8s.Prelude.Map.{Map}

pub data Quantity : Type 0 where
  unreadable : Quantity
  amount : ℕ → Quantity

-- `parseQuantity`, of a field that may be missing; `none` is NaN
unfoldable pub quantity_of : Option Quantity → Option ℕ
quantity_of (some (amount n)) = some n
quantity_of _ = none

-- `|| 0`
unfoldable pub or_zero : Option ℕ → ℕ
or_zero none = 0
or_zero (some n) = n

pub record Container : Type 0 where
  pub cpu : Option Quantity
  pub memory : Option Quantity

pub record Requests : Type 0 where
  pub cpu : ℕ
  pub memory : ℕ

pub data Effect : Type 0 where
  no_schedule no_execute prefer_no_schedule : Effect

unfoldable pub same_effect : Effect → Effect → Bool
same_effect no_schedule no_schedule = true
same_effect no_execute no_execute = true
same_effect prefer_no_schedule prefer_no_schedule = true
same_effect _ _ = false

pub record Taint : Type 0 where
  pub key : Text
  pub value : Option Text
  pub effect : Effect

-- any operator but `Exists` is read as `Equal`
pub record Toleration : Type 0 where
  pub key : Option Text
  pub exists_operator : Bool
  pub value : Option Text
  pub effect : Option Effect

pub data Operator : Type 0 where
  in_values not_in_values exists_key does_not_exist greater less other_operator : Operator

pub record Expression : Type 0 where
  pub key : Text
  pub operator : Operator
  pub values : List Text

pub record Preference : Type 0 where
  pub weight : ℕ
  pub expressions : List Expression

pub data Phase : Type 0 where
  pending running succeeded failed : Phase

unfoldable pub is_finished : Phase → Bool
is_finished succeeded = true
is_finished failed = true
is_finished _ = false

-- why a node was refused
pub data Reason : Type 0 where
  not_ready unschedulable : Reason
  untolerated : Text → Text → Reason
  not_selected too_many_pods insufficient_cpu insufficient_memory : Reason

-- what `summarise` prints: the number of nodes, and how many were refused for each reason
pub record Summary : Type 0 where
  pub total : ℕ
  pub counts : List (Reason × ℕ)

pub data Condition : Type 0 where
  scheduled : Condition
  unschedulable_because : Summary → Condition
  other_condition : Text → Bool → Condition

pub record Pod : Type 0 where
  pub uid : Text
  pub namespace : Text
  pub name : Text
  pub node_name : Text
  pub scheduler_name : Text
  pub phase : Phase
  pub containers : List Container
  pub init_containers : List Container
  pub node_selector : Map Text Text
  pub required_terms : List (List Expression)
  pub preferred : List Preference
  pub tolerations : List Toleration
  pub conditions : List Condition

pub record Resources : Type 0 where
  pub cpu : Option Quantity
  pub memory : Option Quantity
  pub pods : Option Quantity

pub record Node : Type 0 where
  pub name : Text
  pub labels : Map Text Text
  pub conditions : List (Text × Text)
  pub unschedulable : Bool
  pub taints : List Taint
  pub allocatable : Resources
  pub capacity : Resources
