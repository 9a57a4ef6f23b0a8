-- ===== src/Endpoints/Reconcile.antt =====
-- `sameSubsets`, `sameSlice`, `reconcileSlice` and `reconcileService` of controllers/endpoints.js, for one
-- service, over the Endpoints and the EndpointSlice that stand under its name.
use nodejs_k8s.Prelude.{
  ℕ, ◌+◌, Bool, true, false, not, ◌&&◌, Option, none, some, List, [], ◌∷◌, Text, text_eq, nat_eq,
  ◌==◌, if◌then◌else◌,
}
use nodejs_k8s.Prelude.Map.{Map}
use nodejs_k8s.Endpoints.Backends.{
  Pod, Service, Address, Port, Subset, Endpoint, SlicePort, subsets_for, endpoints_for,
  slice_ports_for,
}

unfoldable pub same_list {ℓ} : {A : Type ℓ} → (A → A → Bool) → List A → List A → Bool
same_list same [] [] = true
same_list same (x ∷ xs) (y ∷ ys) = same x y && same_list same xs ys
same_list same _ _ = false

-- what is printed of an address: neither its namespace nor its uid
unfoldable pub same_address : Address → Address → Bool
same_address a b = a.ip == b.ip && a.node_name == b.node_name && a.name == b.name

unfoldable pub same_port : Port → Port → Bool
same_port p q = p.name == q.name && p.port == q.port && p.protocol == q.protocol

unfoldable pub same_subset : Subset → Subset → Bool
unfolding same_list same_address same_port
same_subset s t =
    same_list same_address s.addresses t.addresses
    && same_list same_address s.not_ready_addresses t.not_ready_addresses
    && same_list same_port s.ports t.ports

unfoldable pub same_subsets : List Subset → List Subset → Bool
unfolding same_list same_subset
same_subsets a b = same_list same_subset a b

unfoldable pub same_flag : Bool → Bool → Bool
same_flag true b = b
same_flag false b = not b

unfoldable pub same_zone : Option Text → Option Text → Bool
same_zone none none = true
same_zone (some a) (some b) = a == b
same_zone _ _ = false

unfoldable pub same_endpoint : Endpoint → Endpoint → Bool
unfolding same_address same_flag same_zone
same_endpoint e f =
    same_address e.address f.address
    && same_flag e.ready f.ready
    && same_flag e.serving f.serving
    && same_flag e.terminating f.terminating
    && same_zone e.zone f.zone

unfoldable pub same_slice_port : SlicePort → SlicePort → Bool
unfolding same_port
same_slice_port p q = same_port p.port q.port

pub record Slice : Type 0 where
  pub endpoints : List Endpoint
  pub ports : List SlicePort

unfoldable pub same_slice : Slice → Slice → Bool
unfolding same_list same_endpoint same_slice_port
same_slice s t =
    same_list same_endpoint s.endpoints t.endpoints && same_list same_slice_port s.ports t.ports

-- what stands under the service's name, and how many writes there were
pub record World : Type 0 where
  pub subsets : Option (List Subset)
  pub slice : Option Slice
  pub writes : ℕ

unfoldable pub write_slice : Slice → World → World
write_slice slice w = record w { slice = some slice; writes = w.writes + 1 }

unfoldable pub reconcile_slice : Service → List Pod → Map Text Text → World → World
unfolding same_slice endpoints_for slice_ports_for write_slice
reconcile_slice service pods zones w =
    let slice : Slice = record {
      endpoints = endpoints_for service pods zones;
      ports = slice_ports_for service pods;
    } in
    elim w.slice [
      | none ↦ write_slice slice w
      | some old ↦ if same_slice old slice then w else write_slice slice w
    ]

unfoldable pub write_subsets : List Subset → World → World
write_subsets subsets w = record w { subsets = some subsets; writes = w.writes + 1 }

unfoldable pub reconcile_subsets : Service → List Pod → World → World
unfolding same_subsets subsets_for write_subsets
reconcile_subsets service pods w =
    let subsets = subsets_for service pods in
    elim w.subsets [
      | none ↦ write_subsets subsets w
      | some old ↦ if same_subsets old subsets then w else write_subsets subsets w
    ]

-- a service without a name or a selector is left alone
unfoldable pub reconcile_service : Service → List Pod → Map Text Text → World → World
unfolding reconcile_slice reconcile_subsets
reconcile_service service pods zones w = if service.name == [] then w else elim service.selector [
  | [] ↦ w
  | requirement ∷ requirements ↦
      reconcile_subsets service pods (reconcile_slice service pods zones w)
]
