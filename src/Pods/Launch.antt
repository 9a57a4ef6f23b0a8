-- ===== src/Pods/Launch.antt =====
-- The order in which objects/pod.js runs the containers of a pod.
use nodejs_k8s.Prelude.{
  ℕ, suc, ◌+◌, none, some, List, [], ◌∷◌, ◌++◌, map, ◌≡◌, ◌∙◌, refl, ap, arith, Text, sym, length,
  nat_beq, false, append_assoc, append-nil, length-append, length-map,
}
use nodejs_k8s.Pods.InitContainers.{
  Pod, ContainerStatus, Outcome, exit, terminated, error, failed, exited, waiting_status,
  running_status, exited_status, set_at, patch_init, ask, run_one, run_rest, run_init_containers,
  launch,
}

-- the containers from place `n` on exit with 0
abbrev pub AllDone : (outcome : ℕ → Outcome) (first : ℕ) (names : List Text) → Type 0
AllDone outcome first [] = Unit
AllDone outcome first (name ∷ names) = (outcome first ≡ exit 0) × AllDone outcome (suc first) names

set_at-append :
    (status old : ContainerStatus) (front back : List ContainerStatus)
    → set_at (length front) status (front ++ old ∷ back) ≡ front ++ status ∷ back
unfolding set_at
set_at-append status old [] back = refl
set_at-append status old (s ∷ front) back = ap (λ ss. s ∷ ss) (set_at-append status old front back)

-- a pod of whose init containers some are over, and the others wait
unfoldable with_init : Pod → List ContainerStatus → List Text → Pod
with_init p over names = record p { init_statuses = over ++ map waiting_status names }

abbrev pub done : Text → ContainerStatus
done name = exited_status name 0

-- What the two writes of a round make of the statuses.
set_at_twice :
    (status between old : ContainerStatus) (front back : List ContainerStatus)
    → set_at (length front) status (set_at (length front) between (front ++ old ∷ back))
      ≡ front ++ status ∷ back
set_at_twice status between old front back =
    ap (set_at (length front) status) (set_at-append between old front back)
    ∙ set_at-append status between front back

module _ (outcome : ℕ → Outcome) where
  run_one-done :
      (over : List ContainerStatus) (name : Text) (names : List Text) (p : Pod)
      → outcome (length over) ≡ exit 0
      → run_one outcome (length over) name (with_init p over (name ∷ names))
        ≡ (none, with_init (ask name p) (over ++ done name ∷ []) names)
  unfolding run_one with_init patch_init
  run_one-done over name names p h =
      rw (run_one, h)
        (ap (λ ss. (none, record p { init_statuses = ss; runs = p.runs ++ name ∷ [] }))
          (set_at_twice (done name) (running_status name) (waiting_status name) over
              (map waiting_status names)
            ∙ sym (append_assoc over (done name ∷ []) (map waiting_status names))))

  one_done :
      (n : ℕ) (over : List ContainerStatus) (name : Text) (names : List Text) (p : Pod)
      → n ≡ length over
      → outcome n ≡ exit 0
      → run_rest outcome n (name ∷ names) (with_init p over (name ∷ names))
        ≡ run_rest outcome (suc n) names (with_init (ask name p) (over ++ done name ∷ []) names)
  unfolding run_rest
  one_done n over name names p at h =
      let here : run_one outcome n name (with_init p over (name ∷ names))
          ≡ (none, with_init (ask name p) (over ++ done name ∷ []) names) =
        rw at (run_one-done over name names p (sym (ap outcome at) ∙ h)) in
      rw (run_rest, ap (λ out. out.0) here, ap (λ out. out.1) here) refl

  -- The loop passes over containers that exit with 0.
  run_rest-done :
      (n m : ℕ) (over : List ContainerStatus) (front rest : List Text) (p : Pod)
      → n ≡ length over
      → n + length front ≡ m
      → AllDone outcome n front
      → run_rest outcome n (front ++ rest) (with_init p over (front ++ rest))
        ≡ run_rest outcome m rest
            (with_init (record p { runs = p.runs ++ front }) (over ++ map done front) rest)
  run_rest-done n m over [] rest p at sum h =
      let same : n ≡ m = omega (arith, sum) in rw (append-nil p.runs, append-nil over, same) refl
  run_rest-done n m over (name ∷ front) rest p at sum (here, there) =
      let length' : suc n ≡ length (over ++ done name ∷ []) =
        omega (arith, at, length-append over (done name ∷ [])) in
      one_done n over name (front ++ rest) p at here
      ∙ run_rest-done (suc n) m (over ++ done name ∷ []) front rest (ask name p) length'
          (omega (arith, sum)) there
      ∙ rw
          (
            append_assoc p.runs (name ∷ []) front,
            append_assoc over (done name ∷ []) (map done front),
          )
          refl

  run_one-exits :
      (over : List ContainerStatus) (name : Text) (names : List Text) (p : Pod) (code : ℕ)
      → outcome (length over) ≡ exit (suc code)
      → run_one outcome (length over) name (with_init p over (name ∷ names)) ≡ (
        some (exited name (suc code)),
        record p {
          phase = failed;
          init_statuses = over ++ exited_status name (suc code) ∷ map waiting_status names;
          runs = p.runs ++ name ∷ [];
        },
      )
  unfolding run_one with_init patch_init
  run_one-exits over name names p code h =
      let unclean : nat_beq (suc code) 0 ≡ false = ground arith in
      let status : ContainerStatus = record {
        name = name;
        started = false;
        ready = false;
        state = terminated (suc code) error;
      } in
      rw (run_one, h, unclean)
        (ap
          (λ ss. (
            some (exited name (suc code)),
            record p { phase = failed; init_statuses = ss; runs = p.runs ++ name ∷ [] },
          ))
          (set_at_twice status (running_status name) (waiting_status name) over
            (map waiting_status names)))

  run_rest-exits :
      (n : ℕ) (over : List ContainerStatus) (name : Text) (names : List Text) (p : Pod) (code : ℕ)
      → n ≡ length over
      → outcome n ≡ exit (suc code)
      → run_rest outcome n (name ∷ names) (with_init p over (name ∷ names)) ≡ (
        some (exited name (suc code)),
        record p {
          phase = failed;
          init_statuses = over ++ exited_status name (suc code) ∷ map waiting_status names;
          runs = p.runs ++ name ∷ [];
        },
      )
  unfolding run_rest
  run_rest-exits n over name names p code at h =
      let here : run_one outcome n name (with_init p over (name ∷ names)) ≡ (
        some (exited name (suc code)),
        record p {
          phase = failed;
          init_statuses = over ++ exited_status name (suc code) ∷ map waiting_status names;
          runs = p.runs ++ name ∷ [];
        },
      ) =
        rw at (run_one-exits over name names p code (sym (ap outcome at) ∙ h)) in
      rw (run_rest, ap (λ out. out.0) here, ap (λ out. out.1) here) refl

  -- A pod with an init container starts with all of them waiting.
  run_init_containers-rest :
      (front : List Text) (name : Text) (rest : List Text) (p : Pod)
      → run_init_containers outcome (front ++ name ∷ rest) p
        ≡ run_rest outcome 0 (front ++ name ∷ rest) (with_init p [] (front ++ name ∷ rest))
  unfolding run_init_containers with_init
  run_init_containers-rest [] name rest p = refl
  run_init_containers-rest (first ∷ front) name rest p = refl

-- If the init containers up to some place exit with 0 and the one there with another code, then these have
-- been run in their order and nothing after them, the pod has failed, and of its init containers those
-- before the place are Completed, the one there ended in an Error, and those after it still wait.
pub launch-stops :
    (outcome : ℕ → Outcome) (front : List Text) (name : Text) (rest containers : List Text)
    (p : Pod) (code : ℕ)
    → AllDone outcome 0 front
    → outcome (length front) ≡ exit (suc code)
    → launch outcome (front ++ name ∷ rest) containers p ≡ record p {
      phase = failed;
      init_statuses = map done front ++ exited_status name (suc code) ∷ map waiting_status rest;
      runs = p.runs ++ front ++ name ∷ [];
    }
unfolding launch
launch-stops outcome front name rest containers p code h stops =
    let over = map done front in
    let place : length front ≡ length over = sym (length-map done front) in
    let all =
      run_init_containers-rest outcome front name rest p
      ∙ run_rest-done outcome 0 (length over) [] front (name ∷ rest) p refl (omega (arith, place)) h
      ∙ run_rest-exits outcome (length over) over name rest (record p { runs = p.runs ++ front })
          code refl (sym (ap outcome place) ∙ stops) in
    rw (launch, ap (λ out. out.0) all, ap (λ out. out.1) all, append_assoc p.runs front (name ∷ []))
      refl

-- If all init containers exit with 0, they have been run in their order, and then the containers are; the
-- init containers are Completed and the phase is what it was.
launch-runs :
    (outcome : ℕ → Outcome) (name : Text) (names containers : List Text) (p : Pod)
    → AllDone outcome 0 (name ∷ names)
    → launch outcome (name ∷ names) containers p ≡ record p {
      init_statuses = map done (name ∷ names);
      runs = p.runs ++ (name ∷ names) ++ containers;
    }
unfolding launch run_rest with_init
launch-runs outcome name names containers p h =
    let all =
      run_init_containers-rest outcome [] name names p
      ∙ ap (λ ns. run_rest outcome 0 ns (with_init p [] ns)) (sym (append-nil (name ∷ names)))
      ∙ run_rest-done outcome 0 (length (name ∷ names)) [] (name ∷ names) [] p refl (omega arith)
          h in
    rw
      (
        launch,
        ap (λ out. out.0) all,
        ap (λ out. out.1) all,
        append-nil (map done names),
        append_assoc p.runs (name ∷ names) containers,
      )
      refl
