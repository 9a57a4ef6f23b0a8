-- ===== src/Objects/Scaling.antt =====
-- The scale subresource of middleware/general.js: what is set is what is read.
use nodejs_k8s.Prelude.{ℕ, ◌+◌, false, some, Text, [], ◌∷◌, ◌++◌, ◌≡◌, refl, ap, ◌∙◌, text_eq}
use nodejs_k8s.Json.Value.{number, object, Members, no_members}
use nodejs_k8s.Json.Members.{get, set, get-set}
use nodejs_k8s.Handlers.Checks.{is_dry_run, conflicts}
use nodejs_k8s.Objects.Types.{
  Meta, Resource, Query, Collection, IsCollection, World, matches, updated,
}
use nodejs_k8s.Objects.Writes.{
  is_deleting, query_or_own, next_version, with_version, emit, finalize_if_released, announce,
  patch,
}
use nodejs_k8s.Objects.Changes.{
  Scale, spec_key, replicas_key, to_scale, set_replicas, below, or_else, object_or, scaled,
  ScaleRequest, get_scale, scale_found, set_scale,
}

replicas-to_scale :
    (n : ℕ) (meta : Meta) (body : Members)
    → (to_scale meta (set_replicas n body)).replicas ≡ number n
unfolding to_scale set_replicas below or_else
replicas-to_scale n meta body =
    let spec = object_or (get spec_key body) no_members in
    let inner : get replicas_key (set replicas_key (number n) spec) ≡ some (number n) =
      get-set replicas_key replicas_key (number n) spec in
    let outer : get spec_key (set_replicas n body)
        ≡ some (object (set replicas_key (number n) spec)) =
      get-set spec_key spec_key (object (set replicas_key (number n) spec)) body in
    rw (outer, inner) refl

module _ {C : Type 0} (model : Collection C) (print : ℕ → Text) (laws : IsCollection model) where
  -- the resource that a scale writes
  rescaled : ℕ → Resource → World C → Resource
  rescaled n r w = record r {
    meta = record r.meta { version = print (w.counter + 1) };
    body = set_replicas n r.body;
  }

  -- what the database makes of a document
  change : ℕ → World C → Resource → Resource
  change n w old =
      with_version model print (print (w.counter + 1))
        (record old { body = set_replicas n old.body })

  items_after : Query → ℕ → World C → C
  items_after q n w = (model.find_one_and_update q (change n w) w.items).1

  patch-rescaled :
      (q : Query) (n : ℕ) (r : Resource) (w : World C)
      → model.find_one q w.items ≡ some r
      → is_deleting r.meta ≡ false
      → (patch model print r (λ old. record old { body = set_replicas n old.body }) (some q) w ≡ (
        some (rescaled n r w),
        record {
          items = items_after q n w;
          counter = w.counter + 1;
          events = w.events ++ updated (rescaled n r w) ∷ [];
        },
      ))
        × (model.find_one q (items_after q n w) ≡ some (rescaled n r w))
  unfolding patch announce query_or_own next_version with_version emit finalize_if_released
      is_deleting rescaled change items_after
  patch-rescaled q n r w there stays =
      let (got, again) =
        laws.update-found q (change n w) w.items r there
          (unfold matches in laws.found-matches q w.items r there) in
      (rw (patch, got, stays) refl, again)

  -- A scale of a resource that is there, is not being deleted, and is at the version that the request names
  -- if it names one, answers with the number that it asks for, and what is read afterwards is the same
  -- answer, if the request is no dry run and the collection is as IsCollection says.
  pub set_scale-get_scale :
      (req : ScaleRequest) (n : ℕ) (r : Resource) (w : World C)
      → req.replicas ≡ some n
      → model.find_one req.query w.items ≡ some r
      → is_deleting r.meta ≡ false
      → conflicts req.sent_version (some r.meta.version) ≡ false
      → is_dry_run req.query_dry_run req.body_dry_run ≡ false
      → (let (reply, w') = set_scale model print req w in
          (scale : Scale) × (reply ≡ scaled scale)
          × (scale.replicas ≡ number n)
          × (get_scale model print req.query w' ≡ scaled scale))
  unfolding set_scale scale_found get_scale rescaled
  set_scale-get_scale req n r w asks there stays fresh real =
      let (written, again) = patch-rescaled req.query n r w there stays in
      let new = rescaled n r w in
      let left : (set_scale model print req w).1 ≡ record {
        items = items_after req.query n w;
        counter = w.counter + 1;
        events = w.events ++ updated new ∷ [];
      } =
        rw (set_scale, asks, there, scale_found, fresh, real, written) refl in
      (
        to_scale new.meta new.body,
        rw (set_scale, asks, there, scale_found, fresh, real, written) refl,
        replicas-to_scale n new.meta r.body,
        ap (get_scale model print req.query) left ∙ rw (get_scale, again) refl,
      )
