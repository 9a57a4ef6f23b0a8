-- ===== src/Pods/InitContainers.antt =====
-- `runInitContainers` and the watcher of the exits in `start` of objects/pod.js, with the texts of
-- `podStatusText`. What becomes of a container is the environment's; `patch` is a write of the pod's status.
use nodejs_k8s.Prelude.{
  ℕ, zero, suc, Bool, true, false, not, ◌==◌, Option, none, some, List, [], ◌∷◌, ◌++◌, map, any,
  Text, text_eq, nat_beq, if◌then◌else◌,
}

pub data Reason : Type 0 where
  pod_initializing completed error : Reason
  other : Text → Reason

-- a container's `state`: of a wait the reason is kept, of a termination the exit code and the reason
pub data State : Type 0 where
  waiting : Reason → State
  running : State
  terminated : ℕ → Reason → State

pub record ContainerStatus : Type 0 where
  pub name : Text
  pub started : Bool
  pub ready : Bool
  pub state : State

pub data Phase : Type 0 where
  pending running succeeded failed : Phase

-- why a start failed: a container that exited, or one that could not be run
pub data Failure : Type 0 where
  exited : Text → ℕ → Failure
  not_run : Text → Failure

-- the part of the stored status that a start writes; `runs` lists the containers that were asked for,
-- in order
pub record Pod : Type 0 where
  pub phase : Phase
  pub reason : Text
  pub init_statuses : List ContainerStatus
  pub statuses : List ContainerStatus
  pub runs : List Text

-- what running a container comes to: its exit code, where `waitContainer` fails 1, or an error of `runImage`
pub data Outcome : Type 0 where
  exit : ℕ → Outcome
  refused : Text → Outcome

unfoldable pub waiting_status : Text → ContainerStatus
waiting_status name = record {
  name = name;
  started = false;
  ready = false;
  state = waiting pod_initializing;
}

unfoldable pub running_status : Text → ContainerStatus
running_status name = record { name = name; started = true; ready = false; state = State.running }

abbrev pub reason_of : ℕ → Reason
reason_of code = if nat_beq code 0 then completed else error

unfoldable pub exited_status : Text → ℕ → ContainerStatus
exited_status name code = record {
  name = name;
  started = false;
  ready = nat_beq code 0;
  state = terminated code (reason_of code);
}

-- `$set` of one place of the array
unfoldable pub set_at : ℕ → ContainerStatus → List ContainerStatus → List ContainerStatus
set_at n status [] = []
set_at zero status (s ∷ ss) = status ∷ ss
set_at (suc n) status (s ∷ ss) = s ∷ set_at n status ss

unfoldable pub patch_init : ℕ → ContainerStatus → Pod → Pod
patch_init n status p = record p { init_statuses = set_at n status p.init_statuses }

abbrev pub ask : Text → Pod → Pod
ask name p = record p { runs = p.runs ++ name ∷ [] }

-- One round of the loop, at place `n`, where `outcome n` is what running the container comes to: the failure that is thrown, if one is.
unfoldable pub run_one : (ℕ → Outcome) → ℕ → Text → Pod → Option Failure × Pod
unfolding patch_init running_status exited_status
run_one outcome n name p =
    let asked = ask name (patch_init n (running_status name) p) in
    elim (outcome n) [
      | refused message ↦ (some (not_run message), asked)
      | exit code ↦
          let ended = patch_init n (exited_status name code) asked in
          if nat_beq code 0
          then (none, ended)
          else (some (exited name code), record ended { phase = failed })
    ]

unfoldable pub run_rest : (ℕ → Outcome) → ℕ → List Text → Pod → Option Failure × Pod
unfolding run_one
run_rest outcome n [] p = (none, p)
run_rest outcome n (name ∷ names) p =
    let (failure, next) = run_one outcome n name p in
    elim failure [ none ↦ run_rest outcome (suc n) names next | some f ↦ (some f, next) ]

-- A pod without init containers is left as it is.
unfoldable pub run_init_containers : (ℕ → Outcome) → List Text → Pod → Option Failure × Pod
unfolding run_rest waiting_status
run_init_containers outcome [] p = (none, p)
run_init_containers outcome (name ∷ names) p =
    run_rest outcome 0 (name ∷ names)
      (record p { init_statuses = map waiting_status (name ∷ names) })

-- the launch of the pod, up to the wish to run its containers, and the `catch` in `startWhenBound`
unfoldable pub launch : (ℕ → Outcome) → List Text → List Text → Pod → Pod
unfolding run_init_containers
launch outcome inits containers p =
    let (failure, q) = run_init_containers outcome inits p in
    elim failure [
      | none ↦ record q { runs = q.runs ++ containers }
      | some f ↦ record q { phase = failed }
    ]

-- of a container that is gone
unfoldable pub gone_status : Text → ℕ → ContainerStatus
gone_status name code = record {
  name = name;
  started = false;
  ready = false;
  state = terminated code (reason_of code);
}

-- what the watcher of the exits writes
unfoldable pub finish : List (Text × ℕ) → Pod → Pod
unfolding gone_status
finish exits p = record p {
  phase = if any (λ (e : Text × ℕ). not (nat_beq e.1 0)) exits then failed else succeeded;
  statuses = map (λ (e : Text × ℕ). gone_status e.0 e.1) exits;
}

-- the texts of the STATUS column
pub data Shown : Type 0 where
  terminating : Shown
  reason : Reason → Shown
  exit_code : ℕ → Shown
  phase_text : Phase → Shown
  reason_text : Text → Shown

-- the first status with a reason; a reason that is the empty text counts as none
is_reason : Reason → Bool
is_reason (other name) = not (name == [])
is_reason pod_initializing = true
is_reason completed = true
is_reason error = true

unfoldable pub shown_state : State → Option Shown
unfolding is_reason
shown_state (waiting why) = if is_reason why then some (Shown.reason why) else none
shown_state State.running = none
shown_state (terminated code why) =
    if is_reason why
    then some (Shown.reason why)
    else if nat_beq code 0
    then none
    else some (exit_code code)

unfoldable pub first_shown : List ContainerStatus → Option Shown
unfolding shown_state
first_shown [] = none
first_shown (s ∷ ss) =
    let rest = first_shown ss in elim (shown_state s.state) [ none ↦ rest | some t ↦ some t ]

unfoldable pub pod_status_text : Bool → Pod → Shown
unfolding first_shown
pod_status_text is_deleted p = if is_deleted then terminating else elim (first_shown p.statuses) [
  | some t ↦ t
  | none ↦ if p.reason == [] then phase_text p.phase else reason_text p.reason
]
