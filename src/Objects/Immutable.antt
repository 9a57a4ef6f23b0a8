-- ===== src/Objects/Immutable.antt =====
-- What a PUT of middleware/general.js leaves of an immutable resource of objects/object.js.
use mathlib.Core.Path.{subst}
use nodejs_k8s.Prelude.{
  Bool-cases, inl, inr, ℕ, true, false, Option, none, some, ◌≡◌, ◌∙◌, sym, ap, arith, Text,
  Option-cases,
}
use nodejs_k8s.Json.Value.{Members}
use nodejs_k8s.Json.Members.{get}
use nodejs_k8s.Json.Same.{same_value, same_value_refl}
use nodejs_k8s.Handlers.Checks.{
  conflicts, rejects_immutable, replace, left_behind, is_immutable, is_exempt,
}
use nodejs_k8s.Handlers.Frozen.{rejects_immutable-none}
use nodejs_k8s.Objects.Requests.{PutRequest, Reply, answered, put_one, put_found}
use nodejs_k8s.Objects.Types.{Resource, Collection, IsCollection, World}
use nodejs_k8s.Objects.Writes.{MetaChange}
use nodejs_k8s.Objects.Replies.{
  successor, is_released, after_put, put-written, update-after_put, found-after_put,
}

module _ {C : Type 0} (model : Collection C) (print : ℕ → Text) where
  -- only what is not refused is answered with the resource
  put-permitted :
      (req : PutRequest) (r r' : Resource) (change : MetaChange) (body : Members) (w w' : World C)
      → put_found model print req r change body w ≡ (answered r', w')
      → rejects_immutable r.body (replace body) ≡ none
  unfolding put_found
  put-permitted req r r' change body w w' h =
      elim (Bool-cases (conflicts req.sent_version (some r.meta.version))) [
        | inl yes' ↦ absurd (ground (arith, h, yes'))
        | inr no' ↦ elim (Option-cases (rejects_immutable r.body (replace body))) [
          | inr (field, some') ↦ absurd (ground (arith, h, no', some'))
          | inl none' ↦ none'
        ]
      ]

  module _ (laws : IsCollection model) where
    -- of a PUT with a body
    put_found-immutable :
        (req : PutRequest) (r r' : Resource) (change : MetaChange) (body : Members) (w w' : World C)
        (key : Text)
        → model.find_one req.query w.items ≡ some r
        → is_immutable r.body ≡ true
        → is_exempt key ≡ false
        → put_found model print req r change body w ≡ (answered r', w')
        → is_released model print r' ≡ false
        → (model.find_one req.query w'.items ≡ some r')
          × (same_value (get key r.body) (get key r'.body) ≡ true)
    unfolding successor left_behind
    put_found-immutable req r r' change body w w' key there fixed counted h stays =
        let new = successor model print r change body w in
        let wrote =
          sym (update-after_put model print laws req.query r change body w there)
          ∙ put-written model print req r r' change body w w' h in
        let world : after_put model print req.query new w ≡ w' =
          ap (λ (out : Option Resource × World C). out.1) wrote in
        let same : new ≡ r' =
          ground (arith, ap (λ (out : Option Resource × World C). out.0) wrote) in
        let found =
          found-after_put model print laws req.query r change body w there
            (subst (λ x. is_released model print x ≡ false) (sym same) stays) in
        let kept =
          rejects_immutable-none r.body (replace body) key
            (put-permitted req r r' change body w w' h) fixed counted in
        (
          subst (λ v. model.find_one req.query v.items ≡ some r') world (found ∙ ap some same),
          subst (λ x. same_value (get key r.body) (get key x.body) ≡ true) same kept,
        )

    -- After a PUT to an immutable resource that is answered with a resource, which its deletion does not
    -- end, this resource is what is stored, and each of its members but for the metadata, the API version
    -- and the kind has a value that is the same as before but for the order of its members, a member
    -- that is missing before being missing after and the other way round, if the collection is as
    -- IsCollection says.
    pub put_one-immutable :
        (req : PutRequest) (r r' : Resource) (w w' : World C) (key : Text)
        → model.find_one req.query w.items ≡ some r
        → is_immutable r.body ≡ true
        → is_exempt key ≡ false
        → put_one model print req w ≡ (answered r', w')
        → is_released model print r' ≡ false
        → (model.find_one req.query w'.items ≡ some r')
          × (same_value (get key r.body) (get key r'.body) ≡ true)
    unfolding put_one
    put_one-immutable req r r' w w' key there fixed counted h stays =
        elim (Option-cases req.content) [
          | inl empty ↦
              let read : (answered r, w) ≡ (answered r', w') = rw (put_one, there, empty) at h in
              let same : r ≡ r' = ground (arith, read) in
              let world : w ≡ w' = ap (λ (out : Reply × World C). out.1) read in
              (
                subst (λ v. model.find_one req.query v.items ≡ some r') world
                    (there ∙ ap some same),
                subst (λ x. same_value (get key r.body) (get key x.body) ≡ true) same
                    (same_value_refl (get key r.body)),
              )
          | inr ((change, body), full) ↦
              put_found-immutable req r r' change body w w' key there fixed counted
                (rw (put_one, there, full) at h) stays
        ]
