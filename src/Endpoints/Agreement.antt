-- ===== src/Endpoints/Agreement.antt =====
-- The Endpoints and the EndpointSlice that controllers/endpoints.js makes of a service tell the same.
use mathlib.Core.Path.{subst}
use nodejs_k8s.Prelude.{
  Bool, not, some, List, [], ◌∷◌, ◌++◌, ◌≡◌, ◌≢◌, ◌∙◌, refl, sym, ap, arith, map, Text, filter,
  find, All, Bool-cases, inl, inr, append-nil,
}
use nodejs_k8s.Prelude.Map.{Map}
use nodejs_k8s.Endpoints.Backends.{
  Pod, Service, ServicePort, ContainerPort, Address, Subset, Endpoint, SlicePort, is_ready,
  is_backend, address_for, port_for, slice_port_for, sample_ports, subsets_of, subsets_for,
  endpoint_for, endpoints_for, slice_ports_for,
}

-- the addresses of all subsets
unfoldable pub ready_addresses : List Subset → List Address
ready_addresses [] = []
ready_addresses (s ∷ ss) = s.addresses ++ ready_addresses ss

unfoldable pub unready_addresses : List Subset → List Address
unready_addresses [] = []
unready_addresses (s ∷ ss) = s.not_ready_addresses ++ unready_addresses ss

-- the addresses of the endpoints whose `ready` is as asked
unfoldable pub addresses_if : (Bool → Bool) → List Endpoint → List Address
addresses_if asked es =
    map (λ (e : Endpoint). e.address) (filter (λ (e : Endpoint). asked e.ready) es)

addresses_if-map :
    (asked : Bool → Bool) (zones : Map Text Text) (pods : List Pod)
    → addresses_if asked (map (endpoint_for zones) pods)
      ≡ map address_for (filter (λ pod. asked (is_ready pod)) pods)
unfolding addresses_if endpoint_for filter
addresses_if-map asked zones [] = refl
addresses_if-map asked zones (pod ∷ pods) =
    let ih = addresses_if-map asked zones pods in
    elim (Bool-cases (asked (is_ready pod))) [
      | inl yes' ↦ rw yes' (ap (λ rest. address_for pod ∷ rest) ih)
      | inr no' ↦ rw no' ih
    ]

ready-subsets_of :
    (ports : List ServicePort) (pods : List Pod)
    → ready_addresses (subsets_of ports pods) ≡ map address_for (filter is_ready pods)
unfolding ready_addresses subsets_of filter
ready-subsets_of ports [] = refl
ready-subsets_of ports (pod ∷ pods) = append-nil (map address_for (filter is_ready (pod ∷ pods)))

unready-subsets_of :
    (ports : List ServicePort) (pods : List Pod)
    → unready_addresses (subsets_of ports pods)
      ≡ map address_for (filter (λ pod. not (is_ready pod)) pods)
unfolding unready_addresses subsets_of filter
unready-subsets_of ports [] = refl
unready-subsets_of ports (pod ∷ pods) =
    append-nil (map address_for (filter (λ p. not (is_ready p)) (pod ∷ pods)))

subsets_for-subsets_of :
    (service : Service) (pods : List Pod)
    → service.selector ≢ []
    → subsets_for service pods ≡ subsets_of service.ports (filter (is_backend service) pods)
unfolding subsets_for
subsets_for-subsets_of service pods h =
    elim service.selector
        as (λ selector.
          selector ≢ []
          → (let out : List Subset = elim selector [
            | [] ↦ []
            | requirement ∷ requirements ↦
                subsets_of service.ports (filter (is_backend service) pods)
          ] in
              out)
            ≡ subsets_of service.ports (filter (is_backend service) pods)) [
              | [] ↦ λ ne. absurd (ne refl)
              | requirement ∷ requirements ↦ λ ne. refl
            ]
      h

-- the first of the pods that pass a test is the one that is found
sample-filter :
    (p : Pod → Bool) (pods others : List Pod) (pod : Pod)
    → filter p pods ≡ pod ∷ others
    → find p pods ≡ some pod
unfolding filter find
sample-filter p [] others pod h = absurd (ground (arith, h))
sample-filter p (q ∷ pods) others pod h = elim (Bool-cases (p q)) [
  | inl yes' ↦ ground (arith, h, yes')
  | inr no' ↦
      let ih = sample-filter p pods others pod (ground (arith, h, no')) in ground (arith, ih, no')
]

slice-ports :
    (named : List ContainerPort) (ports : List ServicePort)
    → map (λ (p : SlicePort). p.port) (map (slice_port_for named) ports)
      ≡ map (port_for named) ports
unfolding slice_port_for
slice-ports named [] = refl
slice-ports named (p ∷ ports) = ap (λ rest. port_for named p ∷ rest) (slice-ports named ports)

subsets_of-ports :
    (service : Service) (pods backends : List Pod)
    → filter (is_backend service) pods ≡ backends
    → All
        (λ s. s.ports ≡ map (λ (p : SlicePort). p.port) (slice_ports_for service pods))
        (subsets_of service.ports backends)
unfolding subsets_of slice_ports_for sample_ports
subsets_of-ports service pods [] h = tt
subsets_of-ports service pods (pod ∷ others) h =
    let found = sample-filter (is_backend service) pods others pod h in
    (rw found (sym (slice-ports pod.ports service.ports)), tt)

-- For a service with a selector, the ready addresses of the Endpoints are those of the EndpointSlice's
-- endpoints that are ready, in the same order, the addresses that are not ready those of the others, and
-- all serve on the ports that the EndpointSlice names.
pub subsets_for-endpoints_for :
    (service : Service) (pods : List Pod) (zones : Map Text Text)
    → service.selector ≢ []
    → (ready_addresses (subsets_for service pods)
        ≡ addresses_if (λ ready. ready) (endpoints_for service pods zones))
      × (unready_addresses (subsets_for service pods)
          ≡ addresses_if not (endpoints_for service pods zones))
      × All
          (λ s. s.ports ≡ map (λ (p : SlicePort). p.port) (slice_ports_for service pods))
          (subsets_for service pods)
unfolding endpoints_for
subsets_for-endpoints_for service pods zones h =
    let out = subsets_for-subsets_of service pods h in
    let backends = filter (is_backend service) pods in
    (
      ap ready_addresses out
          ∙ ready-subsets_of service.ports backends
          ∙ sym (addresses_if-map (λ ready. ready) zones backends),
      ap unready_addresses out
          ∙ unready-subsets_of service.ports backends
          ∙ sym (addresses_if-map not zones backends),
      subst (All (λ s. s.ports ≡ map (λ (p : SlicePort). p.port) (slice_ports_for service pods)))
          (sym out) (subsets_of-ports service pods backends refl),
    )
