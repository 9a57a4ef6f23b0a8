-- ===== src/Endpoints/Settled.antt =====
-- A second pass of controllers/endpoints.js over the same pods writes nothing.
use mathlib.Core.Path.{subst}
use nodejs_k8s.Prelude.{
  Bool, true, false, Option, none, some, List, [], ◌∷◌, ◌≡◌, ◌⊎◌, ◌∙◌, refl, sym, ap, arith, Text,
  text_eq, nat_eq, ◌==◌, beq_refl, Bool-cases, Option-cases, inl, inr,
}
use nodejs_k8s.Prelude.Map.{Map}
use nodejs_k8s.Endpoints.Backends.{
  Pod, Service, Address, Port, Subset, Endpoint, subsets_for, endpoints_for, slice_ports_for,
}
use nodejs_k8s.Endpoints.Reconcile.{
  same_list, same_address, same_port, same_subset, same_subsets, same_flag, same_zone,
  same_endpoint, same_slice_port, Slice, same_slice, World, write_slice, reconcile_slice,
  write_subsets, reconcile_subsets, reconcile_service,
}

module _ {A : Type 0} (same : A → A → Bool) (same_refl : (x : A) → same x x ≡ true) where
  same_list_refl : (xs : List A) → same_list same xs xs ≡ true
  unfolding same_list
  same_list_refl [] = refl
  same_list_refl (x ∷ xs) = rw (same_refl x, same_list_refl xs) refl

same_address_refl : (a : Address) → same_address a a ≡ true
unfolding same_address
same_address_refl a = rw (beq_refl a.ip, beq_refl a.node_name, beq_refl a.name) refl

same_port_refl : (p : Port) → same_port p p ≡ true
unfolding same_port
same_port_refl p = ground (arith, beq_refl p.name, beq_refl p.protocol)

same_subset_refl : (s : Subset) → same_subset s s ≡ true
unfolding same_subset
same_subset_refl s =
    rw
      (
        same_list_refl same_address same_address_refl s.addresses,
        same_list_refl same_address same_address_refl s.not_ready_addresses,
        same_list_refl same_port same_port_refl s.ports,
      )
      refl

same_zone_refl : (z : Option Text) → same_zone z z ≡ true
unfolding same_zone
same_zone_refl none = refl
same_zone_refl (some z) = beq_refl z

same_flag_refl : (b : Bool) → same_flag b b ≡ true
unfolding same_flag
same_flag_refl true = refl
same_flag_refl false = refl

same_endpoint_refl : (e : Endpoint) → same_endpoint e e ≡ true
unfolding same_endpoint
same_endpoint_refl e =
    let a = same_address_refl e.address in
    let r = same_flag_refl e.ready in
    let s = same_flag_refl e.serving in
    let t = same_flag_refl e.terminating in
    let z = same_zone_refl e.zone in ground (arith, a, r, s, t, z)

same_slice_refl : (s : Slice) → same_slice s s ≡ true
unfolding same_slice same_slice_port
same_slice_refl s =
    let a = same_list_refl same_endpoint same_endpoint_refl s.endpoints in
    let b = same_list_refl same_slice_port (λ p. same_port_refl p.port) s.ports in
    ground (arith, a, b)

module _ (service : Service) (pods : List Pod) where
  -- what stands there is the same as what would be written
  AreCurrent : World → Type 0
  AreCurrent w =
      (old : List Subset) × (w.subsets ≡ some old)
      × (same_subsets old (subsets_for service pods) ≡ true)

  reconcile_subsets-keeps : (w : World) → AreCurrent w → reconcile_subsets service pods w ≡ w
  unfolding reconcile_subsets AreCurrent
  reconcile_subsets-keeps w (old, there, same) = simp (reconcile_subsets, there, same) refl

  AreCurrent-reconcile_subsets : (w : World) → AreCurrent (reconcile_subsets service pods w)
  unfolding reconcile_subsets AreCurrent write_subsets same_subsets
  AreCurrent-reconcile_subsets w =
      let own = same_list_refl same_subset same_subset_refl (subsets_for service pods) in
      elim (Option-cases w.subsets) [
        | inl none' ↦ rw (reconcile_subsets, none') (subsets_for service pods, refl, own)
        | inr (old, some') ↦
            elim (Bool-cases (same_list same_subset old (subsets_for service pods))) [
              | inl same ↦ rw (reconcile_subsets, some', same) (old, some', same)
              | inr differs ↦
                  rw (reconcile_subsets, some', differs) (subsets_for service pods, refl, own)
            ]
      ]

  slice-reconcile_subsets : (w : World) → (reconcile_subsets service pods w).slice ≡ w.slice
  unfolding reconcile_subsets write_subsets
  slice-reconcile_subsets w = ground arith

module _ (service : Service) (pods : List Pod) (zones : Map Text Text) where
  slice_for : Slice
  slice_for = record {
    endpoints = endpoints_for service pods zones;
    ports = slice_ports_for service pods;
  }

  IsCurrent : Option Slice → Type 0
  IsCurrent slice = (old : Slice) × (slice ≡ some old) × (same_slice old slice_for ≡ true)

  reconcile_slice-keeps : (w : World) → IsCurrent w.slice → reconcile_slice service pods zones w ≡ w
  unfolding reconcile_slice IsCurrent slice_for
  reconcile_slice-keeps w (old, there, same) = simp (reconcile_slice, there, same) refl

  IsCurrent-reconcile_slice : (w : World) → IsCurrent (reconcile_slice service pods zones w).slice
  unfolding reconcile_slice IsCurrent slice_for write_slice
  IsCurrent-reconcile_slice w =
      let own = same_slice_refl slice_for in
      elim (Option-cases w.slice) [
        | inl none' ↦ rw (reconcile_slice, none') (slice_for, refl, own)
        | inr (old, some') ↦ elim (Bool-cases (same_slice old slice_for)) [
          | inl same ↦ rw (reconcile_slice, some', same) (old, some', same)
          | inr differs ↦ rw (reconcile_slice, some', differs) (slice_for, refl, own)
        ]
      ]

  both-twice :
      (w : World)
      → (let once = reconcile_subsets service pods (reconcile_slice service pods zones w) in
          reconcile_subsets service pods (reconcile_slice service pods zones once) ≡ once)
  both-twice w =
      let first = reconcile_slice service pods zones w in
      let once = reconcile_subsets service pods first in
      let current =
        subst IsCurrent (sym (slice-reconcile_subsets service pods first))
          (IsCurrent-reconcile_slice w) in
      ap (reconcile_subsets service pods) (reconcile_slice-keeps once current)
      ∙ reconcile_subsets-keeps service pods once (AreCurrent-reconcile_subsets service pods first)

  -- a pass that does something does both parts
  pass : (w : World) → World
  pass w = reconcile_subsets service pods (reconcile_slice service pods zones w)

  by-selector :
      (selector : Map Text Text)
      → (let out : World → World = λ w. elim selector [ [] ↦ w | r ∷ rs ↦ pass w ] in
          ((w : World) → out w ≡ w) ⊎ ((w : World) → out w ≡ pass w))
  by-selector [] = inl (λ w. refl)
  by-selector (r ∷ rs) = inr (λ w. refl)

  nothing-or-pass :
      ((w : World) → reconcile_service service pods zones w ≡ w)
      ⊎ ((w : World) → reconcile_service service pods zones w ≡ pass w)
  unfolding reconcile_service pass
  nothing-or-pass = elim (Bool-cases (service.name == [])) [
    | inl unnamed ↦ inl (λ w. rw (reconcile_service, unnamed) refl)
    | inr named ↦ elim (by-selector service.selector) [
      | inl nothing ↦ inl (λ w. rw (reconcile_service, named) (nothing w))
      | inr both ↦ inr (λ w. rw (reconcile_service, named) (both w))
    ]
  ]

  -- Whatever stands under a service's name, a second pass over the same service, pods and zones changes
  -- nothing and writes nothing.
  pub reconcile_service_twice :
      (w : World)
      → reconcile_service service pods zones (reconcile_service service pods zones w)
        ≡ reconcile_service service pods zones w
  unfolding pass
  reconcile_service_twice w =
      let out = reconcile_service service pods zones w in
      elim nothing-or-pass [
        | inl nothing ↦ nothing out
        | inr both ↦ both out ∙ ap pass (both w) ∙ both-twice w ∙ sym (both w)
      ]
