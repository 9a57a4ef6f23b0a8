-- ===== src/Objects/Requests.antt =====
-- `update` and `deleteOne` of middleware/general.js, over the resources of objects/object.js.
use nodejs_k8s.Prelude.{ℕ, Bool, ◌&&◌, Option, none, some, Text, if◌then◌else◌}
use nodejs_k8s.Json.Value.{Members}
use nodejs_k8s.Handlers.Checks.{
  DryRun, is_dry_run, conflicts, rejects_immutable, replace, projected_write,
}
use nodejs_k8s.Objects.Types.{Resource, Query, Collection, World}
use nodejs_k8s.Objects.Writes.{has_finalizers, is_deleting, MetaChange, delete, update}

-- A PUT: what its parameters and its body name. An empty body has no content.
pub record PutRequest : Type 0 where
  pub query : Query
  pub sent_version : Option Text
  pub query_dry_run : Option DryRun
  pub body_dry_run : Option DryRun
  pub content : Option (MetaChange × Members)

-- `foreseen` has the members other than `metadata` that a dry run shows
pub data Reply : Type 0 where
  not_found : Reply
  conflict : Reply
  unprocessable : Text → Reply
  foreseen : Members → Reply
  answered : Resource → Reply
  success : Reply

unfoldable pub written_reply {ℓ} : {W : Type ℓ} → Option Resource × W → Reply × W
written_reply (none, w) = (not_found, w)
written_reply (some r, w) = (answered r, w)

unfoldable pub is_pending : Resource → Bool
unfolding is_deleting has_finalizers
is_pending r = is_deleting r.meta && has_finalizers r.meta

-- of what the deletion returned
unfoldable pub deletion_reply {ℓ} : {W : Type ℓ} → Option Resource × W → Reply × W
unfolding is_pending
deletion_reply (none, w) = (success, w)
deletion_reply (some r, w) = (if is_pending r then answered r else success, w)

module _ {C : Type 0} (model : Collection C) (print : ℕ → Text) where
  unfoldable pub put_found :
      PutRequest → Resource → MetaChange → Members → World C → Reply × World C
  unfolding conflicts rejects_immutable is_dry_run written_reply update
  put_found req r change body w =
      if conflicts req.sent_version (some r.meta.version)
      then (conflict, w)
      else elim (rejects_immutable r.body (replace body)) [
        | some field ↦ (unprocessable field, w)
        | none ↦
            if is_dry_run req.query_dry_run req.body_dry_run
            then (foreseen (projected_write r.body (replace body)), w)
            else written_reply (update model print r change body (some req.query) w)
      ]

  unfoldable pub put_one : PutRequest → World C → Reply × World C
  unfolding put_found
  put_one req w = elim (model.find_one req.query w.items) [
    | none ↦ (not_found, w)
    | some r ↦ elim req.content [
      | none ↦ (answered r, w)
      | some (change, body) ↦ put_found req r change body w
    ]
  ]

  unfoldable pub delete_one :
      Query → Option DryRun → Option DryRun → Text → World C → Reply × World C
  unfolding is_dry_run deletion_reply delete
  delete_one q query_dry_run body_dry_run now w = elim (model.find_one q w.items) [
    | none ↦ (not_found, w)
    | some r ↦
        if is_dry_run query_dry_run body_dry_run
        then deletion_reply (some r, w)
        else deletion_reply (delete model print now r none w)
  ]
