-- ===== src/Workloads/Rolling.antt =====
-- A rolling update of objects/deployment.js from its first batch to its last.
use nodejs_k8s.Prelude.{
  ℕ, zero, suc, ◌+◌, ◌-◌, ◌≤◌, ◌<◌, min, true, false, some, List, ◌∷◌, ◌++◌, ◌≡◌, ◌≢◌, refl, ap,
  ◌∙◌, arith, Text, All, append_assoc, ltb, nat_beq, every, any, length, Bool-cases, inl, inr,
  text_beq, text_beq_iff, append-nil, text_eq,
}
use nodejs_k8s.Workloads.Names.{
  hyphen, is_hex, is_suffix, behind, Owner, Owned, owned_pods, behind-append,
}
use nodejs_k8s.Workloads.Ownership.{is_suffix_once}
use nodejs_k8s.Workloads.Rollout.{
  Environment, World, Spec, pod_of, create_pods, without_found, delete_pods, retire, roll, rollout,
  batch_size, percent_of,
}
use nodejs_k8s.Workloads.Thinning.{
  count, IsThinned, without_found-append, without_found-without_found, without_found-IsThinned,
}
use nodejs_k8s.Workloads.Generations.{new_pods, new_pods-append, create_pods-new_pods}

-- three bytes are six hexadecimal digits
unfoldable pub IsHex : Text → Type 0
IsHex t = (length t ≡ 6) × (every is_hex t ≡ true)

-- A new pod of one controller is not another's.
pod_of-apart :
    (rc old : Owner) (suffix : Text)
    → rc.uid ≢ old.uid
    → rc.name ≢ old.name
    → IsHex suffix
    → owned_pods old (pod_of rc suffix) ≡ false
unfolding owned_pods pod_of IsHex is_suffix any
pod_of-apart rc old suffix uids names (six, hex) =
    let name = rc.name ++ hyphen ∷ suffix in
    let own : is_suffix (behind rc.name name) ≡ true =
      ap is_suffix (behind-append rc.name suffix) ∙ ground (arith, six, hex) in
    let foreign : text_beq rc.uid old.uid ≡ false =
      ground (arith, text_beq_iff rc.uid old.uid, uids) in
    elim (Bool-cases (is_suffix (behind old.name name))) [
      | inl other' ↦ absurd (names (is_suffix_once rc.name old.name name own other'))
      | inr none' ↦ ground (arith, foreign, none')
    ]

module _ (env : Environment) (takes : (n : ℕ) → env.takes n ≡ true)
    (hex : (n : ℕ) → IsHex (env.suffix n)) (rc old : Owner) (uids : rc.uid ≢ old.uid)
    (names : rc.name ≢ old.name) where
  new_pods-apart : (first n : ℕ) → All (λ p. owned_pods old p ≡ false) (new_pods env rc first n)
  unfolding new_pods
  new_pods-apart first zero = tt
  new_pods-apart first (suc n) =
      (pod_of-apart rc old (env.suffix first) uids names (hex first), new_pods-apart (suc first) n)

  -- the pods and the counter once `n` pods are replaced
  replaced : ℕ → World → World
  replaced n w = record w {
    pods = without_found env (owned_pods old) n w.pods ++ new_pods env rc w.drawn n;
    drawn = w.drawn + n;
    replicas = w.replicas + n;
  }

  replaced-zero : (w : World) → replaced 0 w ≡ w
  unfolding replaced without_found new_pods
  replaced-zero w =
      let drawn' : w.drawn + 0 ≡ w.drawn = omega arith in
      let replicas' : w.replicas + 0 ≡ w.replicas = omega arith in
      rw (drawn', replicas', append-nil w.pods) refl

  replaced-replaced : (m n k : ℕ) (w : World) → m + n ≡ k → replaced n (replaced m w) ≡ replaced k w
  unfolding replaced
  replaced-replaced m n k w h =
      let drawn' : w.drawn + m + n ≡ w.drawn + k = omega (arith, h) in
      let replicas' : w.replicas + m + n ≡ w.replicas + k = omega (arith, h) in
      rw
        (
          drawn',
          replicas',
          without_found-append env (owned_pods old) n (without_found env (owned_pods old) m w.pods)
              (new_pods env rc w.drawn m) (new_pods-apart w.drawn m),
          without_found-without_found env (owned_pods old) m n k w.pods h,
          append_assoc (without_found env (owned_pods old) k w.pods) (new_pods env rc w.drawn m)
              (new_pods env rc (w.drawn + m) n),
          new_pods-append env rc w.drawn m (w.drawn + m) n k refl h,
        )
        refl

  -- what a round does to the state
  round : ℕ → World → World
  round batch w =
      let retired = retire env (some old) batch (create_pods env rc batch w).1 in
      record retired { replicas = retired.replicas + batch }

  round-replaced : (batch : ℕ) (w : World) → 0 < batch → round batch w ≡ replaced batch w
  unfolding round replaced retire delete_pods
  round-replaced batch w some_batch =
      let made = create_pods-new_pods env takes rc batch (w.drawn + batch) w refl in
      let nonzero : nat_beq batch 0 ≡ false = ground (arith, some_batch) in
      rw
        (
          ap (λ out. out.1) made,
          nonzero,
          without_found-append env (owned_pods old) batch w.pods (new_pods env rc w.drawn batch)
              (new_pods-apart w.drawn batch),
        )
        refl

  -- One round of the loop, and the rounds after it.
  roll-replaced :
      (rounds size desired created left : ℕ) (w : World)
      → 0 < size
      → created + left ≡ desired
      → left ≤ rounds
      → roll env rounds size desired created rc (some old) w ≡ (true, replaced left w)
  unfolding roll round
  roll-replaced zero size desired created left w some_size sum enough =
      let nothing : left ≡ 0 = omega (arith, enough) in rw (nothing, replaced-zero w) refl
  roll-replaced (suc rounds) size desired created zero w some_size sum enough =
      let over : ltb created desired ≡ false = ground (arith, sum) in
      rw (roll, over, replaced-zero w) refl
  roll-replaced (suc rounds) size desired created (suc left) w some_size sum enough =
      let going : ltb created desired ≡ true = ground (arith, sum) in
      let batch = min size (desired - created) in
      let made = create_pods-new_pods env takes rc batch (w.drawn + batch) w refl in
      let same = round-replaced batch w (omega (arith, some_size, sum)) in
      let rest =
        roll-replaced rounds size desired (created + batch) (suc left - batch) (replaced batch w)
          some_size (omega (arith, sum)) (omega (arith, sum, some_size, enough)) in
      let begin : roll env (suc rounds) size desired created rc (some old) w
          ≡ roll env rounds size desired (created + batch) rc (some old) (round batch w) =
        rw (roll, going, ap (λ out. out.0) made) refl in
      begin
      ∙ ap (roll env rounds size desired (created + batch) rc (some old)) same
      ∙ rest
      ∙ ap (λ v. (true, v))
          (replaced-replaced batch (suc left - batch) (suc left) w (omega (arith, sum)))

-- A rolling update replaces one generation by another: if the database takes each pod, and the two
-- controllers have different names and uids, then it comes to its end, has created as many pods of the
-- new controller as are desired, has deleted as many of the old one's, or all of them if there are
-- fewer, and no other pod, and has added the desired number to the deployment's count, if random
-- suffixes are six hexadecimal digits; which of the old pods go is the database's choice.
pub rollout-replaces :
    (env : Environment) (spec : Spec) (rc old : Owner) (w : World)
    → ((n : ℕ) → env.takes n ≡ true)
    → ((n : ℕ) → IsHex (env.suffix n))
    → rc.uid ≢ old.uid
    → rc.name ≢ old.name
    → spec.is_recreate ≡ false
    → (rest : List Owned) × IsThinned
        (owned_pods old)
        (min spec.desired (count (owned_pods old) w.pods))
        w.pods
        rest
      × (rollout env spec rc (some old) w ≡ (
        true,
        record w {
          pods = rest ++ new_pods env rc w.drawn spec.desired;
          drawn = w.drawn + spec.desired;
          replicas = w.replicas + spec.desired;
        },
      ))
unfolding rollout batch_size replaced
rollout-replaces env spec rc old w takes hex uids names rolling = (
  without_found env (owned_pods old) spec.desired w.pods,
  without_found-IsThinned env (owned_pods old) spec.desired w.pods,
  rw (rollout, rolling)
      (roll-replaced env takes hex rc old uids names spec.desired
        (batch_size spec.desired (percent_of spec.max_unavailable)) spec.desired 0 spec.desired w
        (omega arith) (omega arith) (omega arith)),
)
