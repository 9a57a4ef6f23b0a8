-- ===== src/Pods/Readiness.antt =====
-- What the readiness and liveness timers of objects/pod.js do over a sequence of ticks.
use nodejs_k8s.Prelude.{
  ℕ, zero, suc, ◌+◌, ◌*◌, ◌<◌, Bool, true, false, List, [], ◌∷◌, ◌++◌, ◌≡◌, ◌∙◌, refl, ap, arith,
  Bool-cases, inl, inr, ltb, leb,
}
use nodejs_k8s.Pods.Probes.{
  Readiness, readiness_tick, written, watch_readiness, liveness_tick, watch_liveness,
}

-- `n` failures in a row
abbrev pub failing : ℕ → List Bool
failing zero = []
failing (suc n) = false ∷ failing n

-- the state after a tick, with the flag in the database
after : ℕ → Bool → Readiness × Bool → Readiness × Bool
unfolding readiness_tick written
after threshold ok (t, flag) =
    let out = readiness_tick threshold ok t in (out.1, written out.0 flag)

-- the state after `n` failures in a row, the flag being what the timer believes
at_row : ℕ → ℕ → Readiness × Bool
at_row threshold n = (record { failures = n; last_ready = ltb n threshold }, ltb n threshold)

after-success :
    (threshold : ℕ) (t : Readiness)
    → 0 < threshold
    → after threshold true (t, t.last_ready) ≡ at_row threshold 0
unfolding after readiness_tick written at_row
after-success threshold t h = ground arith

after-failure :
    (threshold n : ℕ) → after threshold false (at_row threshold n) ≡ at_row threshold (suc n)
unfolding after readiness_tick written at_row
after-failure threshold n = ground arith

after-IsShown :
    (threshold : ℕ) (ok : Bool) (t : Readiness)
    → (after threshold ok (t, t.last_ready)).1 ≡ (after threshold ok (t, t.last_ready)).0.last_ready
unfolding after readiness_tick written
after-IsShown threshold ok t = ground arith

watch_readiness-failing :
    (threshold n k m : ℕ)
    → k + n ≡ m
    → watch_readiness threshold (failing k) (at_row threshold n) ≡ at_row threshold m
unfolding watch_readiness at_row after
watch_readiness-failing threshold n zero m h =
    let same : n ≡ m = omega (arith, h) in ap (at_row threshold) same
watch_readiness-failing threshold n (suc k) m h =
    ap (watch_readiness threshold (failing k)) (after-failure threshold n)
    ∙ watch_readiness-failing threshold (suc n) k m (omega (arith, h))

watch_readiness-shown :
    (threshold : ℕ) (front rest : List Bool) (t : Readiness)
    → (u : Readiness) × (watch_readiness threshold (front ++ rest) (t, t.last_ready)
        ≡ watch_readiness threshold rest (u, u.last_ready))
unfolding watch_readiness after
watch_readiness-shown threshold [] rest t = (t, refl)
watch_readiness-shown threshold (ok ∷ front) rest t =
    let next = after threshold ok (t, t.last_ready) in
    let (u, same) = watch_readiness-shown threshold front rest next.0 in
    (
      u,
      ap (λ flag. watch_readiness threshold (front ++ rest) (next.0, flag))
            (after-IsShown threshold ok t)
          ∙ same,
    )

-- After whatever answers, then a success, then `n` failures in a row, the container's status says that it is
-- ready exactly if there are fewer failures than the threshold, if each write that the timer makes
-- reaches the database and the status says at first what the timer believes.
pub watch_readiness-row :
    (threshold n : ℕ) (front : List Bool) (t : Readiness)
    → 0 < threshold
    → (watch_readiness threshold (front ++ true ∷ failing n) (t, t.last_ready)).1 ≡ ltb n threshold
unfolding watch_readiness at_row after
watch_readiness-row threshold n front t h =
    let (u, same) = watch_readiness-shown threshold front (true ∷ failing n) t in
    ap (λ (s : Readiness × Bool). s.1)
      (same
        ∙ ap (watch_readiness threshold (failing n)) (after-success threshold u h)
        ∙ watch_readiness-failing threshold 0 n n (omega arith))

-- A liveness timer that meets `n` failures and nothing else restarts the container once for each full
-- row of failures that the threshold asks for.
watch_liveness-failing :
    (threshold n restarts failures : ℕ)
    → failures < threshold
    → (let (restarts', failures') = watch_liveness threshold (failing n) (restarts, failures) in
        (restarts' * threshold + failures' ≡ restarts * threshold + failures + n)
        × (failures' < threshold))
unfolding watch_liveness liveness_tick
watch_liveness-failing threshold zero restarts failures h = (omega arith, h)
watch_liveness-failing threshold (suc n) restarts failures h =
    elim (Bool-cases (leb threshold (suc failures))) [
      | inl full ↦
          let (sum, bound) =
            watch_liveness-failing threshold n (suc restarts) 0 (omega (arith, h)) in
          let last : suc failures ≡ threshold = ground (arith, full, h) in
          rw (watch_liveness, liveness_tick, full) (sum ∙ grind (arith, last), bound)
      | inr short ↦
          let more : suc failures < threshold = ground (arith, short) in
          let (sum, bound) = watch_liveness-failing threshold n restarts (suc failures) more in
          rw (watch_liveness, liveness_tick, short) (sum ∙ omega arith, bound)
    ]
