-- ===== src/Workloads/Rollout.antt =====
-- `createPods` and `deletePods` of objects/replicationController.js and `rollout` of objects/deployment.js,
-- for a deployment that no service has the name of. Random bytes, whether the database takes a new pod, and
-- which pods it finds first are the environment's: `created_at`, by which a deletion sorts, is a field
-- of no pod.
use nodejs_k8s.Prelude.{
  ℕ, zero, suc, ◌+◌, ◌-◌, ◌*◌, ◌/◌, min, max, Bool, true, false, Option, none, some, List, [], ◌∷◌,
  ◌++◌, Text, ltb, nat_beq, any, filter, if◌then◌else◌,
}
use nodejs_k8s.Workloads.Names.{hyphen, is_digit, Owner, Owned, owned_pods}

-- `suffix n` is the hexadecimal text of the n-th draw of random bytes, and `takes n` says whether the pod
-- that is named by it is created. Of the pods that a query matches, those not taken yet, the database
-- gives next the one at the place that `first_found` says, or the last if there are not so many.
pub record Environment : Type 0 where
  pub suffix : ℕ → Text
  pub takes : ℕ → Bool
  pub first_found : List Owned → ℕ

-- `status.replicas` and its three companions, which the deployment moves together
pub record World : Type 0 where
  pub pods : List Owned
  pub drawn : ℕ
  pub replicas : ℕ

-- the copy of the template that `podTemplate` makes; a namespace in the template is the controller's
unfoldable pub pod_of : Owner → Text → Owned
pod_of rc suffix = record {
  name = rc.name ++ hyphen ∷ suffix;
  namespace = rc.namespace;
  owner_uids = rc.uid ∷ [];
}

module _ (env : Environment) where
  -- Every slot is tried, and one that fails makes the whole fail.
  unfoldable pub create_pods : Owner → ℕ → World → Bool × World
  unfolding pod_of
  create_pods rc zero w = (true, w)
  create_pods rc (suc n) w =
      let taken = env.takes w.drawn in
      let named = pod_of rc (env.suffix w.drawn) in
      let (rest, last) =
        create_pods rc n (record w {
          drawn = suc w.drawn;
          pods = if taken then w.pods ++ named ∷ [] else w.pods;
        }) in
      (if taken then rest else false, last)

-- without the matching pod at place `k` of those that match, or without the last of them
unfoldable pub without_at : (Owned → Bool) → ℕ → List Owned → List Owned
without_at mine k [] = []
without_at mine zero (p ∷ ps) = if mine p then ps else p ∷ without_at mine zero ps
without_at mine (suc k) (p ∷ ps) =
    let before = without_at mine k ps in
    let same = without_at mine (suc k) ps in
    if mine p then (if any mine ps then p ∷ before else ps) else p ∷ same

unfoldable pub without : (Owned → Bool) → List Owned → List Owned
without mine [] = []
without mine (p ∷ ps) = let rest = without mine ps in if mine p then rest else p ∷ rest

module _ (env : Environment) where
  -- without the pods that a query with a limit finds
  unfoldable pub without_found : (Owned → Bool) → ℕ → List Owned → List Owned
  unfolding without_at
  without_found mine zero ps = ps
  without_found mine (suc n) ps =
      without_found mine n (without_at mine (env.first_found (filter mine ps)) ps)

  unfoldable pub delete_pods : Owner → ℕ → World → World
  unfolding without_found without
  delete_pods rc n w = record w {
    pods =
        if nat_beq n 0
        then without (owned_pods rc) w.pods
        else without_found (owned_pods rc) n w.pods;
  }

  -- a previous generation, if there is one
  unfoldable pub retire : Option Owner → ℕ → World → World
  unfolding delete_pods
  retire none n w = w
  retire (some rc) n w = delete_pods rc n w

-- the number that the first digits of a text make, if there are any
digits_from : ℕ → Text → ℕ
digits_from so_far [] = so_far
digits_from so_far (c ∷ cs) =
    let more = digits_from (so_far * 10 + (c - 48)) cs in if is_digit c then more else so_far

unfoldable pub first_number : Text → Option ℕ
unfolding digits_from
first_number [] = none
first_number (c ∷ cs) =
    let later = first_number cs in if is_digit c then some (digits_from 0 (c ∷ cs)) else later

-- `Number(... || 25)`
unfoldable pub percent_of : Text → ℕ
unfolding first_number
percent_of t = elim (first_number t) [ none ↦ 25 | some n ↦ n ]

-- rounded up
unfoldable pub batch_size : ℕ → ℕ → ℕ
batch_size desired percent = max 1 ((desired * percent + 99) / 100)

pub record Spec : Type 0 where
  pub desired : ℕ
  pub max_unavailable : Text
  pub is_recreate : Bool

module _ (env : Environment) where
  -- The `while` loop, on as many rounds as there are pods to create; the test says whether it is over, and
  -- the flag whether it was not thrown out of.
  unfoldable pub roll : ℕ → ℕ → ℕ → ℕ → Owner → Option Owner → World → Bool × World
  unfolding create_pods retire
  roll zero size desired created rc previous w = (true, w)
  roll (suc rounds) size desired created rc previous w =
      let batch = min size (desired - created) in
      let (taken, made) = create_pods env rc batch w in
      let retired = retire env previous batch made in
      let rest =
        roll rounds size desired (created + batch) rc previous
          (record retired { replicas = retired.replicas + batch }) in
      if ltb created desired then (if taken then rest else (false, made)) else (true, w)

  unfoldable pub recreate : ℕ → Owner → Option Owner → World → Bool × World
  unfolding create_pods retire
  recreate desired rc previous w =
      let (taken, made) = create_pods env rc desired (retire env previous 0 w) in
      if taken then (true, record made { replicas = desired }) else (false, made)

  unfoldable pub rollout : Spec → Owner → Option Owner → World → Bool × World
  unfolding roll recreate percent_of batch_size
  rollout spec rc previous w =
      if spec.is_recreate
      then recreate spec.desired rc previous w
      else roll spec.desired (batch_size spec.desired (percent_of spec.max_unavailable))
          spec.desired 0 rc previous w
