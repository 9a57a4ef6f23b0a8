-- ===== src/Workloads/Examples.antt =====
-- A deployment "w" of two pods, whose second generation replaces the first.
use nodejs_k8s.Prelude.{
  ◌+◌, true, false, some, List, min, [], ◌∷◌, ◌++◌, ◌≡◌, refl, any, every, arith,
}
use nodejs_k8s.Workloads.Names.{Owner, Owned, owned_controllers, owned_pods}
use nodejs_k8s.Workloads.Ownership.{owned_controllers_once}
use nodejs_k8s.Workloads.Rollout.{Environment, World, Spec, percent_of, batch_size, rollout}
use nodejs_k8s.Workloads.Thinning.{count, IsThinned}
use nodejs_k8s.Workloads.Generations.{new_pods}
use nodejs_k8s.Workloads.Rolling.{IsHex, rollout-replaces}

abbrev environment : Environment
environment = record {
  suffix = λ n. 97 ∷ 48 ∷ 49 ∷ 50 ∷ 51 ∷ 102 ∷ [];
  takes = λ n. true;
  first_found = λ ps. 1;
}

-- "w-1" and "w-2"
abbrev old : Owner
old = record { name = 119 ∷ 45 ∷ 49 ∷ []; namespace = []; uid = 49 ∷ [] }

abbrev new : Owner
new = record { name = 119 ∷ 45 ∷ 50 ∷ []; namespace = []; uid = 50 ∷ [] }

abbrev deployment : Owner
deployment = record { name = 119 ∷ []; namespace = []; uid = [] }

abbrev old_pod : Owned
old_pod = record {
  name = 119 ∷ 45 ∷ 49 ∷ 45 ∷ 48 ∷ 48 ∷ 48 ∷ 48 ∷ 48 ∷ 48 ∷ [];
  namespace = [];
  owner_uids = [];
}

abbrev world : World
world = record { pods = old_pod ∷ old_pod ∷ old_pod ∷ []; drawn = 0; replicas = 3 }

-- "50%"
abbrev spec : Spec
spec = record { desired = 2; max_unavailable = 53 ∷ 48 ∷ 37 ∷ []; is_recreate = false }

half : batch_size 2 (percent_of spec.max_unavailable) ≡ 1
unfolding batch_size percent_of
half = refl

by_name : owned_pods old old_pod ≡ true
unfolding owned_pods any every
by_name = refl

rollout-replaces_example :
    (rest : List Owned) × IsThinned
      (owned_pods old)
      (min 2 (count (owned_pods old) world.pods))
      world.pods
      rest
    × (rollout environment spec new (some old) world ≡ (
      true,
      record world { pods = rest ++ new_pods environment new 0 2; drawn = 0 + 2; replicas = 3 + 2 },
    ))
unfolding every IsHex
rollout-replaces_example =
    rollout-replaces environment spec new old world (λ n. refl) (λ n. (refl, refl))
      (λ e. ground (arith, e)) (λ e. ground (arith, e)) refl

abbrev controller : Owned
controller = record { name = 119 ∷ 45 ∷ 50 ∷ []; namespace = []; owner_uids = [] }

owned_controllers_once_example :
    (deployment.name ≡ deployment.name) × (deployment.namespace ≡ deployment.namespace)
unfolding every
owned_controllers_once_example =
    owned_controllers_once deployment (record deployment { uid = 51 ∷ [] }) controller
      (unfold owned_controllers in refl) (unfold owned_controllers in refl)
