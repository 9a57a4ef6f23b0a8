-- ===== src/Objects/Changes.antt =====
-- `patch`, `save`, `getScale` and `setScale` of middleware/general.js, over the resources of
-- objects/object.js. What the database's operators make of a document is an argument of a patch; `$set` of a
-- path goes down objects, and makes those that are missing.
use nodejs_k8s.Prelude.{ℕ, Bool, Option, none, some, [], ◌∷◌, Text, text_eq, ◌==◌, if◌then◌else◌}
use nodejs_k8s.Json.Value.{Json, null, boolean, number, string, array, object, Members, no_members}
use nodejs_k8s.Json.Members.{get, set}
use nodejs_k8s.Handlers.Checks.{
  DryRun, is_dry_run, conflicts, rejects_immutable, Write, projected_write,
}
use nodejs_k8s.Objects.Types.{Meta, Resource, Query, Collection, World}
use nodejs_k8s.Objects.Writes.{Draft, CreateError, invalid, generated_name, create, patch}
use nodejs_k8s.Objects.Requests.{
  Reply, not_found, conflict, unprocessable, foreseen, answered, written_reply,
}

-- A patch: `change` is what the operators that it is flattened into make of the stored document. Only an
-- object can be empty.
pub record PatchRequest : Type 0 where
  pub query : Query
  pub sent_version : Option Text
  pub query_dry_run : Option DryRun
  pub body_dry_run : Option DryRun
  pub is_empty : Bool
  pub write : Write
  pub change : Resource → Resource

abbrev pub spec_key : Text
spec_key = b's' ∷ b'p' ∷ b'e' ∷ b'c' ∷ []

abbrev status_key : Text
status_key = b's' ∷ b't' ∷ b'a' ∷ b't' ∷ b'u' ∷ b's' ∷ []

abbrev pub replicas_key : Text
replicas_key = b'r' ∷ b'e' ∷ b'p' ∷ b'l' ∷ b'i' ∷ b'c' ∷ b'a' ∷ b's' ∷ []

abbrev selector_key : Text
selector_key = b's' ∷ b'e' ∷ b'l' ∷ b'e' ∷ b'c' ∷ b't' ∷ b'o' ∷ b'r' ∷ []

abbrev labels_key : Text
labels_key = b'm' ∷ b'a' ∷ b't' ∷ b'c' ∷ b'h' ∷ b'L' ∷ b'a' ∷ b'b' ∷ b'e' ∷ b'l' ∷ b's' ∷ []

-- `value?.[key]`
unfoldable pub below : Text → Option Json → Option Json
below key (some (object ms)) = get key ms
below key _ = none

-- `a ?? b`
unfoldable pub or_else : Option Json → Json → Json
or_else none b = b
or_else (some null) b = b
or_else (some (boolean x)) b = boolean x
or_else (some (number x)) b = number x
or_else (some (string x)) b = string x
or_else (some (array xs ms)) b = array xs ms
or_else (some (object ms)) b = object ms

-- `a || b`, for values that are objects if they are there
unfoldable pub object_or : Option Json → Members → Members
object_or (some (object ms)) other = ms
object_or _ other = other

pub record Scale : Type 0 where
  pub name : Text
  pub namespace : Text
  pub uid : Text
  pub version : Text
  pub creation : Text
  pub replicas : Json
  pub status_replicas : Json
  pub selector : Members

unfoldable pub to_scale : Meta → Members → Scale
unfolding below or_else object_or
to_scale meta body =
    let spec = get spec_key body in
    let selector = below selector_key spec in
    let replicas = or_else (below replicas_key spec) (number 0) in
    record {
      name = meta.name;
      namespace = meta.namespace;
      uid = meta.uid;
      version = meta.version;
      creation = meta.creation;
      replicas = replicas;
      status_replicas = or_else (below replicas_key (get status_key body)) replicas;
      selector = object_or (below labels_key selector) (object_or selector no_members);
    }

-- `$set: { 'spec.replicas': n }`
unfoldable pub set_replicas : ℕ → Members → Members
unfolding object_or
set_replicas n body =
    set spec_key (object (set replicas_key (number n) (object_or (get spec_key body) no_members)))
      body

-- What is gone when the patch is made is answered as a scale of nothing, with 0 replicas.
pub data ScaleReply : Type 0 where
  bad_request no_resource stale nothing : ScaleReply
  scaled : Scale → ScaleReply

-- the number that the body names
pub record ScaleRequest : Type 0 where
  pub query : Query
  pub sent_version : Option Text
  pub query_dry_run : Option DryRun
  pub body_dry_run : Option DryRun
  pub replicas : Option ℕ

-- a POST, with the name and the namespace of its path, empty where there are none
pub record SaveRequest : Type 0 where
  pub draft : Draft
  pub path_name : Text
  pub path_namespace : Text
  pub query_dry_run : Option DryRun
  pub body_dry_run : Option DryRun

pub data SaveReply : Type 0 where
  created : Resource → SaveReply
  refused : CreateError → SaveReply
  would_create : Draft → SaveReply

-- "default"
abbrev default_text : Text
default_text = b'd' ∷ b'e' ∷ b'f' ∷ b'a' ∷ b'u' ∷ b'l' ∷ b't' ∷ []

abbrev or_text : Text → Text → Text
or_text [] other = other
or_text (c ∷ cs) other = c ∷ cs

module _ {C : Type 0} (model : Collection C) (print : ℕ → Text) where
  unfoldable pub patch_found : PatchRequest → Resource → World C → Reply × World C
  unfolding conflicts rejects_immutable is_dry_run projected_write written_reply patch
  patch_found req r w =
      if conflicts req.sent_version (some r.meta.version)
      then (conflict, w)
      else elim (rejects_immutable r.body req.write) [
        | some field ↦ (unprocessable field, w)
        | none ↦
            if is_dry_run req.query_dry_run req.body_dry_run
            then (foreseen (projected_write r.body req.write), w)
            else written_reply (patch model print r req.change (some req.query) w)
      ]

  unfoldable pub patch_one : PatchRequest → World C → Reply × World C
  unfolding patch_found
  patch_one req w = elim (model.find_one req.query w.items) [
    | none ↦ (not_found, w)
    | some r ↦ if req.is_empty then (answered r, w) else patch_found req r w
  ]

  unfoldable pub get_scale : Query → World C → ScaleReply
  unfolding to_scale
  get_scale q w = elim (model.find_one q w.items) [
    | none ↦ no_resource
    | some r ↦ scaled (to_scale r.meta r.body)
  ]

  abbrev pub scale_reply : Option Resource × World C → ScaleReply × World C
  scale_reply (none, w) = (nothing, w)
  scale_reply (some r, w) = (scaled (to_scale r.meta r.body), w)

  unfoldable pub scale_found : ScaleRequest → ℕ → Resource → World C → ScaleReply × World C
  unfolding conflicts is_dry_run to_scale set_replicas patch
  scale_found req n r w =
      if conflicts req.sent_version (some r.meta.version)
      then (stale, w)
      else if is_dry_run req.query_dry_run req.body_dry_run
      then (scaled (to_scale r.meta (set_replicas n r.body)), w)
      else scale_reply (
          patch model print r (λ old. record old { body = set_replicas n old.body })
            (some req.query) w)

  unfoldable pub set_scale : ScaleRequest → World C → ScaleReply × World C
  unfolding scale_found
  set_scale req w = elim req.replicas [
    | none ↦ (bad_request, w)
    | some n ↦ elim (model.find_one req.query w.items) [
      | none ↦ (no_resource, w)
      | some r ↦ scale_found req n r w
    ]
  ]

  -- the draft with the name and the namespace that it is stored under
  unfoldable pub named_draft : Bool → Option Text → Text → SaveRequest → Draft
  unfolding generated_name
  named_draft is_cluster nameless suffix req =
      let name = generated_name nameless suffix req.draft in
      let own = req.draft.meta.namespace in
      record req.draft {
        name = if is_cluster then or_text name (or_text req.path_name default_text) else name;
        meta = record req.draft.meta {
          namespace =
              if is_cluster then own else or_text own (or_text req.path_namespace default_text);
        };
      }

  -- of a kind that is not namespaced by the name alone; no query where there is no name yet
  unfoldable pub save_query : Bool → SaveRequest → Draft → Option Query
  save_query is_cluster req draft =
      if is_cluster
      then some (record { name = draft.name; namespace = none })
      else (let name = or_text req.path_name draft.name in
          if name == []
          then none
          else some (record { name = name; namespace = some draft.meta.namespace }))

  save_reply : (Option CreateError × Option Resource) × World C → SaveReply × World C
  save_reply ((none, some r), w) = (created r, w)
  save_reply ((none, none), w) = (refused invalid, w)
  save_reply ((some e, r), w) = (refused e, w)

  unfoldable pub save :
      Bool → Option Text → Text → Text → SaveRequest → World C → SaveReply × World C
  unfolding named_draft save_query is_dry_run save_reply create
  save is_cluster nameless suffix now req w =
      let draft = named_draft is_cluster nameless suffix req in
      if is_dry_run req.query_dry_run req.body_dry_run
      then (would_create draft, w)
      else save_reply
          (create model print nameless suffix now draft (save_query is_cluster req draft) w)
