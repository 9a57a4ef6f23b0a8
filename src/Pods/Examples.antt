-- ===== src/Pods/Examples.antt =====
-- A pod with three init containers, the second of which fails, and a probe with a threshold of 2.
use nodejs_k8s.Prelude.{
  ℕ, zero, suc, ◌+◌, true, false, none, some, [], ◌∷◌, ◌++◌, map, Text, ltb, ◌≡◌, refl, arith,
}
use nodejs_k8s.Pods.Probes.{
  Probe, ready_at_first, watch_readiness, threshold_of, probe_handler, is_configured, run_probe,
}
use nodejs_k8s.Pods.Readiness.{failing, watch_readiness-row}
use nodejs_k8s.Pods.InitContainers.{
  Pod, pending, failed, Outcome, exit, waiting_status, exited_status, launch, finish,
  pod_status_text, Shown, completed,
}
use nodejs_k8s.Pods.Launch.{done, launch-stops}

abbrev names : ℕ → Text
names n = (97 + n) ∷ []

abbrev outcome : ℕ → Outcome
outcome zero = exit 0
outcome (suc n) = exit 3

abbrev pod : Pod
pod = record { phase = pending; reason = []; init_statuses = []; statuses = []; runs = [] }

launch-stops_example :
    launch outcome (names 0 ∷ [] ++ names 1 ∷ names 2 ∷ []) (names 3 ∷ []) pod ≡ record pod {
      phase = failed;
      init_statuses =
          map done (names 0 ∷ []) ++ exited_status (names 1) 3 ∷ map waiting_status (names 2 ∷ []);
      runs = [] ++ (names 0 ∷ []) ++ names 1 ∷ [];
    }
launch-stops_example =
    launch-stops outcome (names 0 ∷ []) (names 1) (names 2 ∷ []) (names 3 ∷ []) pod 2 (refl, tt)
      refl

-- The column shows the first container's end alone.
shown_completed :
    pod_status_text false (finish ((names 0, 0) ∷ (names 1, 1) ∷ []) pod) ≡ Shown.reason completed
unfolding pod_status_text finish
shown_completed = refl

abbrev probe : Probe
probe = record {
  exec = none;
  http_get = some (record { port = 8080; path = [] });
  tcp_socket = none;
  failure_threshold = 0;
}

three_by_default : threshold_of probe ≡ 3
unfolding threshold_of
three_by_default = refl

configured : is_configured (some probe) ≡ true
unfolding is_configured probe_handler
configured = refl

answers :
    run_probe
      (record { exit_code = λ t. 1; status_code = λ p t. some 302; connected = λ p. false })
      probe
    ≡ true
unfolding run_probe
answers = refl

watch_readiness-row_example :
    (watch_readiness 2 (false ∷ [] ++ true ∷ failing 2) (ready_at_first, true)).1 ≡ ltb 2 2
watch_readiness-row_example = watch_readiness-row 2 2 (false ∷ []) ready_at_first (omega arith)
