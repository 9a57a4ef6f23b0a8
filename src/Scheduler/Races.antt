-- ===== src/Scheduler/Races.antt =====
-- Schedulers that race in controllers/scheduler.js: for one pod, and for the room on one node.

use mathlib.Core.Path.{subst}
use nodejs_k8s.Prelude.{
  ◌≤◌, Bool, true, false, Option, none, some, List, [], ◌∷◌, ◌++◌, ◌≡◌, ◌≢◌, refl, ap, arith, Text,
  text_eq, text_beq_iff, ◌==◌, filter, length, All, Bool-cases, Option-cases, inl, inr,
}
use nodejs_k8s.Scheduler.Types.{Pod, scheduled}
use nodejs_k8s.Scheduler.Schedule.{
  Cluster, update_first, put_before, or_same, bind_pod, set_scheduled_condition, record_event,
  is_other_condition,
}
use nodejs_k8s.Scheduler.Bound.{is_waiting}

module _ {A : Type 0} (q : A → Bool) where
  Refused : A → Type 0
  Refused x = q x ≡ false

  update_first-none : (f : A → A) (xs : List A) → All Refused xs → update_first q f xs ≡ none
  unfolding update_first put_before Refused
  update_first-none f [] h = refl
  update_first-none f (x ∷ xs) (here, there) = ground (arith, here, update_first-none f xs there)

  -- an update that does not change the test changes nothing of who is refused
  Refused-or_same :
      (p : A → Bool) (f : A → A) (xs : List A)
      → ((x : A) → q (f x) ≡ q x)
      → All Refused xs
      → All Refused (or_same xs (update_first p f xs))
  unfolding update_first put_before or_same Refused
  Refused-or_same p f [] same h = tt
  Refused-or_same p f (x ∷ xs) same (here, there) = elim (Bool-cases (p x)) [
    | inl yes' ↦ ground (arith, yes', same x, here, there)
    | inr no' ↦
        let ih = Refused-or_same p f xs same there in
        elim (Option-cases (update_first p f xs)) [
          | inl none' ↦ ground (arith, no', none', here, there)
          | inr (ys, some') ↦ ground (arith, no', some', here, ih)
        ]
  ]

module _ {A : Type 0} (q r : A → Bool) (covers : (x : A) → q x ≡ true → r x ≡ true) where
  none-Refused : (xs : List A) → length (filter r xs) ≡ 0 → All (Refused q) xs
  unfolding filter Refused
  none-Refused [] h = tt
  none-Refused (x ∷ xs) h = elim (Bool-cases (r x)) [
    | inl yes' ↦ absurd (ground (arith, h, yes'))
    | inr no' ↦ elim (Bool-cases (q x)) [
      | inl yes' ↦ absurd (ground (arith, no', covers x yes'))
      | inr refused ↦ (refused, none-Refused xs (ground (arith, h, no')))
    ]
  ]

  -- of at most one, the update leaves none
  updated-Refused :
      (f : A → A) (xs ys : List A)
      → ((x : A) → q (f x) ≡ false)
      → length (filter r xs) ≤ 1
      → update_first q f xs ≡ some ys
      → All (Refused q) ys
  unfolding update_first put_before filter Refused
  updated-Refused f [] ys done few h = absurd (ground (arith, h))
  updated-Refused f (x ∷ xs) ys done few h = elim (Bool-cases (q x)) [
    | inl yes' ↦
        let all : f x ∷ xs ≡ ys = ground (arith, h, yes') in
        let rest = none-Refused xs (ground (arith, few, covers x yes')) in
        subst (All (λ y. q y ≡ false)) all (done x, rest)
    | inr no' ↦ elim (Option-cases (update_first q f xs)) [
      | inl none' ↦ absurd (ground (arith, h, no', none'))
      | inr (zs, some') ↦
          let all : x ∷ zs ≡ ys = ground (arith, h, no', some') in
          let fewer : length (filter r xs) ≤ 1 = ground (arith, few) in
          subst (All (λ y. q y ≡ false)) all (no', updated-Refused f xs zs done fewer some')
    ]
  ]

module _ (pod : Pod) where
  has_uid : (p : Pod) → is_waiting pod p ≡ true → (p.uid == pod.uid) ≡ true
  unfolding is_waiting
  has_uid p h = ground (arith, h)

  named-Refused :
      (name : Text) (p : Pod) → name ≢ [] → is_waiting pod (record p { node_name = name }) ≡ false
  unfolding is_waiting
  named-Refused name p named = ground (arith, text_beq_iff name [], named)

  bind_pod-none :
      (name : Text) (c : Cluster)
      → All (Refused (is_waiting pod)) c.pods
      → bind_pod pod name c ≡ (none, c)
  unfolding bind_pod is_waiting
  bind_pod-none name c h =
      let missed : update_first (is_waiting pod) (λ (p : Pod). record p { node_name = name }) c.pods
          ≡ none =
        update_first-none (is_waiting pod) (λ (p : Pod). record p { node_name = name }) c.pods h in
      rw (bind_pod, missed) refl

  -- after a binding no pod waits
  bound-Refused :
      (name : Text) (c c' : Cluster)
      → length (filter (λ (p : Pod). p.uid == pod.uid) c.pods) ≤ 1
      → name ≢ []
      → bind_pod pod name c ≡ (some name, c')
      → All (Refused (is_waiting pod)) c'.pods
  unfolding bind_pod set_scheduled_condition record_event is_waiting
  bound-Refused name c c' few named h =
      elim (Option-cases
        (update_first (is_waiting pod) (λ (p : Pod). record p { node_name = name }) c.pods)) [
          | inl none' ↦ absurd (ground (arith, none', h))
          | inr (ys, some') ↦
              let refused =
                updated-Refused (is_waiting pod) (λ (p : Pod). p.uid == pod.uid) has_uid
                  (λ (p : Pod). record p { node_name = name }) c.pods ys
                  (λ p. named-Refused name p named) few some' in
              let kept =
                Refused-or_same (is_waiting pod) (λ (p : Pod). p.uid == pod.uid)
                  (λ (p : Pod). record p {
                    conditions = filter is_other_condition p.conditions ++ scheduled ∷ [];
                  })
                  ys (λ p. refl) refused in
              let pods' =
                ap (λ (r : Option Text × Cluster). (r.1).pods) (rw (bind_pod, some') at h) in
              subst (All (Refused (is_waiting pod))) pods' kept
        ]

-- Two schedulers that bind one pod: if no other pod has its uid and the first binds it to a named node,
-- the second is told that nothing was bound, and changes nothing, whichever node it had chosen.
pub bind_pod_once :
    (pod : Pod) (name other : Text) (c c' : Cluster)
    → length (filter (λ (p : Pod). p.uid == pod.uid) c.pods) ≤ 1
    → name ≢ []
    → bind_pod pod name c ≡ (some name, c')
    → bind_pod pod other c' ≡ (none, c')
bind_pod_once pod name other c c' few named h =
    bind_pod-none pod other c' (bound-Refused pod name c c' few named h)
