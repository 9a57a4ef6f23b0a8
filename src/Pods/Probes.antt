-- ===== src/Pods/Probes.antt =====
-- The probes of objects/pod.js: `probeHandler`, `runProbe`, and what the timers that `scheduleProbes` sets
-- do on each tick. Running a command and asking a port are the environment's.
use nodejs_k8s.Prelude.{
  ℕ, suc, Bool, true, false, not, ◌&&◌, ◌||◌, Option, none, some, List, [], ◌∷◌, Text, nat_eq,
  nat_beq, ltb, leb, if◌then◌else◌,
}

-- a port or a path that is missing is 0 or the empty text, which are false as well
pub record HttpGet : Type 0 where
  pub port : ℕ
  pub path : Text

pub record TcpSocket : Type 0 where
  pub port : ℕ

-- older data nests the other two below `exec`
pub record Exec : Type 0 where
  pub command : List Text
  pub http_get : Option HttpGet
  pub tcp_socket : Option TcpSocket

pub record Probe : Type 0 where
  pub exec : Option Exec
  pub http_get : Option HttpGet
  pub tcp_socket : Option TcpSocket
  pub failure_threshold : ℕ

pub data Handler : Type 0 where
  runs : List Text → Handler
  gets : HttpGet → Handler
  connects : TcpSocket → Handler

abbrev http_port : Option HttpGet → Option HttpGet
http_port none = none
http_port (some h) = if nat_beq h.port 0 then none else some h

abbrev tcp_port : Option TcpSocket → Option TcpSocket
tcp_port none = none
tcp_port (some t) = if nat_beq t.port 0 then none else some t

abbrev pub first_some : {A : Type 0} → Option A → Option A → Option A
first_some none second = second
first_some (some a) second = some a

command_of : Option Exec → List Text
command_of none = []
command_of (some e) = e.command

nested_http : Option Exec → Option HttpGet
nested_http none = none
nested_http (some e) = e.http_get

nested_tcp : Option Exec → Option TcpSocket
nested_tcp none = none
nested_tcp (some e) = e.tcp_socket

-- the last two of the three tests
socket_or_none : Option HttpGet → Option TcpSocket → Option Handler
socket_or_none (some h) t = some (gets h)
socket_or_none none (some t) = some (connects t)
socket_or_none none none = none

unfoldable pub handler_of : List Text → Option HttpGet → Option TcpSocket → Option Handler
unfolding socket_or_none
handler_of (word ∷ words) h t = some (runs (word ∷ words))
handler_of [] h t = socket_or_none h t

unfoldable pub probe_handler : Option Probe → Option Handler
unfolding handler_of command_of nested_http nested_tcp
probe_handler none = none
probe_handler (some p) =
    handler_of (command_of p.exec)
      (first_some (http_port p.http_get) (http_port (nested_http p.exec)))
      (first_some (tcp_port p.tcp_socket) (tcp_port (nested_tcp p.exec)))

unfoldable pub is_configured : Option Probe → Bool
unfolding probe_handler
is_configured p = elim (probe_handler p) [ none ↦ false | some h ↦ true ]

-- what a container and its address answer: the exit code of a command, the status code of a response
-- unless there is an error or no answer in time, and whether a connection comes about
pub record Environment : Type 0 where
  pub exit_code : List Text → ℕ
  pub status_code : ℕ → Text → Option ℕ
  pub connected : ℕ → Bool

-- "/"
abbrev root : Text
root = 47 ∷ []

or_root : Text → Text
or_root [] = root
or_root (c ∷ cs) = c ∷ cs

abbrev is_success : Option ℕ → Bool
is_success none = false
is_success (some code) = leb 200 code && ltb code 400

unfoldable pub run_handler : Environment → Handler → Bool
unfolding or_root
run_handler env (runs words) = nat_beq (env.exit_code words) 0
run_handler env (gets h) =
    is_success (env.status_code (if nat_beq h.port 0 then 80 else h.port) (or_root h.path))
run_handler env (connects t) = env.connected t.port

-- The timers are set for probes with a handler; one without is tested for the fields that it has.
unfoldable pub run_probe : Environment → Probe → Bool
unfolding probe_handler run_handler handler_of command_of
run_probe env p = elim (probe_handler (some p)) [
  | some h ↦ run_handler env h
  | none ↦ elim (handler_of (command_of p.exec) p.http_get p.tcp_socket) [
    | some h ↦ run_handler env h
    | none ↦ true
  ]
]

-- `probe.failureThreshold || 3`
unfoldable pub threshold_of : Probe → ℕ
threshold_of p = if nat_beq p.failure_threshold 0 then 3 else p.failure_threshold

-- the variables that a readiness timer closes over
pub record Readiness : Type 0 where
  pub failures : ℕ
  pub last_ready : Bool

abbrev pub ready_at_first : Readiness
ready_at_first = record { failures = 0; last_ready = true }

abbrev pub same_flag : Bool → Bool → Bool
same_flag true b = b
same_flag false b = not b

-- One tick: the answer of the probe, and the readiness that is written, if one is.
unfoldable pub readiness_tick : ℕ → Bool → Readiness → Option Bool × Readiness
readiness_tick threshold ok t =
    let failures' = if ok then 0 else suc t.failures in
    let ready' = ok || ltb failures' threshold in
    if same_flag ready' t.last_ready
    then (none, record t { failures = failures' })
    else (some ready', record { failures = failures'; last_ready = ready' })

-- One tick of a liveness timer: whether the container is stopped and run again.
unfoldable pub liveness_tick : ℕ → Bool → ℕ → Bool × ℕ
liveness_tick threshold ok failures =
    let failures' = if ok then 0 else suc failures in
    if leb threshold failures' then (true, 0) else (false, failures')

-- the `ready` of the container's status, where the writes reach the database
unfoldable pub written : Option Bool → Bool → Bool
written none flag = flag
written (some ready) flag = ready

unfoldable pub watch_readiness : ℕ → List Bool → Readiness × Bool → Readiness × Bool
unfolding readiness_tick written
watch_readiness threshold [] (t, flag) = (t, flag)
watch_readiness threshold (ok ∷ oks) (t, flag) =
    let out = readiness_tick threshold ok t in
    watch_readiness threshold oks (out.1, written out.0 flag)

-- the number of restarts, and the failures that are counted at the end
unfoldable pub watch_liveness : ℕ → List Bool → ℕ × ℕ → ℕ × ℕ
unfolding liveness_tick
watch_liveness threshold [] (restarts, failures) = (restarts, failures)
watch_liveness threshold (ok ∷ oks) (restarts, failures) =
    let out = liveness_tick threshold ok failures in
    watch_liveness threshold oks ((if out.0 then suc restarts else restarts), out.1)
