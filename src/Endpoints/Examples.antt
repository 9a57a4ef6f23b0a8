-- ===== src/Endpoints/Examples.antt =====
-- The theorems of the endpoints at a service with two pods, one of which is ready.
use nodejs_k8s.Prelude.{
  true, false, not, none, some, List, [], ◌∷◌, ◌≡◌, ◌≢◌, arith, map, Text, text_eq, All,
}
use nodejs_k8s.Endpoints.Backends.{
  Pod, Service, port_name, SlicePort, subsets_for, endpoints_for, slice_ports_for,
}
use nodejs_k8s.Endpoints.Reconcile.{World, reconcile_service}
use nodejs_k8s.Endpoints.Agreement.{
  ready_addresses, unready_addresses, addresses_if, subsets_for-endpoints_for,
}
use nodejs_k8s.Endpoints.Settled.{reconcile_service_twice}

abbrev pod_named : Text → Text → List (Text × Text) → Pod
pod_named name ip conditions = record {
  namespace = b'n' ∷ [];
  name = name;
  uid = name;
  labels = (b'a' ∷ [], b'x' ∷ []) ∷ [];
  ip = ip;
  node_name = b'k' ∷ [];
  is_running = true;
  conditions = conditions;
  is_terminating = false;
  ports = record { name = b'h' ∷ []; container_port = 80 } ∷ [];
}

abbrev pods : List Pod
pods =
    pod_named (b'p' ∷ []) (b'1' ∷ [])
      ((b'R' ∷ b'e' ∷ b'a' ∷ b'd' ∷ b'y' ∷ [], b'T' ∷ b'r' ∷ b'u' ∷ b'e' ∷ []) ∷ [])
    ∷ pod_named (b'q' ∷ []) (b'2' ∷ []) []
    ∷ []

abbrev service : Service
service = record {
  namespace = b'n' ∷ [];
  name = b's' ∷ [];
  selector = (b'a' ∷ [], b'x' ∷ []) ∷ [];
  ports =
      record {
        name = [];
        port = 8080;
        target = some (port_name (b'h' ∷ []));
        protocol = [];
        app_protocol = [];
      }
      ∷ [];
}

has_selector : service.selector ≢ []
has_selector h = absurd (ground (arith, h))

subsets_for-endpoints_for_example :
    (ready_addresses (subsets_for service pods)
      ≡ addresses_if (λ ready. ready) (endpoints_for service pods []))
    × (unready_addresses (subsets_for service pods)
        ≡ addresses_if not (endpoints_for service pods []))
    × All
        (λ s. s.ports ≡ map (λ (p : SlicePort). p.port) (slice_ports_for service pods))
        (subsets_for service pods)
subsets_for-endpoints_for_example = subsets_for-endpoints_for service pods [] has_selector

abbrev before : World
before = record { subsets = none; slice = none; writes = 0 }

reconcile_service_twice_example :
    reconcile_service service pods [] (reconcile_service service pods [] before)
    ≡ reconcile_service service pods [] before
reconcile_service_twice_example = reconcile_service_twice service pods [] before
