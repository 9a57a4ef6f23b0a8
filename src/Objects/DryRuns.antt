-- ===== src/Objects/DryRuns.antt =====
-- A dry run of any write of middleware/general.js writes nothing.
use nodejs_k8s.Prelude.{
  ℕ, Bool, true, Option, some, Text, ◌≡◌, refl, Option-cases, Bool-cases, inl, inr, text_eq,
}
use nodejs_k8s.Handlers.Checks.{DryRun, is_dry_run, conflicts, rejects_immutable, replace}
use nodejs_k8s.Objects.Types.{Resource, Query, Collection, World}
use nodejs_k8s.Objects.Requests.{PutRequest, put_one, put_found, delete_one, deletion_reply}
use nodejs_k8s.Objects.Changes.{
  PatchRequest, patch_one, patch_found, ScaleRequest, set_scale, scale_found, SaveRequest, save,
}

-- the writes of one resource
pub data Call : Type 0 where
  puts : PutRequest → Call
  patches : PatchRequest → Call
  scales : ScaleRequest → Call
  deletes : Query → Option DryRun → Option DryRun → (now : Text) → Call
  saves : (is_cluster : Bool) → Option Text → (suffix now : Text) → SaveRequest → Call

-- the parameters of the query and of the body
unfoldable pub is_dry : Call → Bool
is_dry (puts req) = is_dry_run req.query_dry_run req.body_dry_run
is_dry (patches req) = is_dry_run req.query_dry_run req.body_dry_run
is_dry (scales req) = is_dry_run req.query_dry_run req.body_dry_run
is_dry (deletes q query_dry_run body_dry_run now) = is_dry_run query_dry_run body_dry_run
is_dry (saves is_cluster nameless suffix now req) = is_dry_run req.query_dry_run req.body_dry_run

module _ {C : Type 0} (model : Collection C) (print : ℕ → Text) where
  unfoldable pub left_by : Call → World C → World C
  left_by (puts req) w = (put_one model print req w).1
  left_by (patches req) w = (patch_one model print req w).1
  left_by (scales req) w = (set_scale model print req w).1
  left_by (deletes q query_dry_run body_dry_run now) w =
      (delete_one model print q query_dry_run body_dry_run now w).1
  left_by (saves is_cluster nameless suffix now req) w =
      (save model print is_cluster nameless suffix now req w).1

  put_found-dry :
      (req : PutRequest) (r : Resource) (w : World C) (change : _) (body : _)
      → is_dry_run req.query_dry_run req.body_dry_run ≡ true
      → (put_found model print req r change body w).1 ≡ w
  unfolding put_found
  put_found-dry req r w change body dry =
      elim (Bool-cases (conflicts req.sent_version (some r.meta.version))) [
        | inl stale ↦ rw (put_found, stale) refl
        | inr fresh ↦ elim (Option-cases (rejects_immutable r.body (replace body))) [
          | inl none' ↦ rw (put_found, fresh, none', dry) refl
          | inr (field, some') ↦ rw (put_found, fresh, some') refl
        ]
      ]

  patch_found-dry :
      (req : PatchRequest) (r : Resource) (w : World C)
      → is_dry_run req.query_dry_run req.body_dry_run ≡ true
      → (patch_found model print req r w).1 ≡ w
  unfolding patch_found
  patch_found-dry req r w dry =
      elim (Bool-cases (conflicts req.sent_version (some r.meta.version))) [
        | inl stale ↦ rw (patch_found, stale) refl
        | inr fresh ↦ elim (Option-cases (rejects_immutable r.body req.write)) [
          | inl none' ↦ rw (patch_found, fresh, none', dry) refl
          | inr (field, some') ↦ rw (patch_found, fresh, some') refl
        ]
      ]

  scale_found-dry :
      (req : ScaleRequest) (n : ℕ) (r : Resource) (w : World C)
      → is_dry_run req.query_dry_run req.body_dry_run ≡ true
      → (scale_found model print req n r w).1 ≡ w
  unfolding scale_found
  scale_found-dry req n r w dry =
      elim (Bool-cases (conflicts req.sent_version (some r.meta.version))) [
        | inl stale ↦ rw (scale_found, stale) refl
        | inr fresh ↦ rw (scale_found, fresh, dry) refl
      ]

-- A write that asks for a dry run, in its query or in its body, leaves the collection, the versions and the
-- events as they are, whatever it is a write of: a PUT, a PATCH, a scale, a DELETE or a POST.
pub dry_run-unchanged :
    {C : Type 0} (model : Collection C) (print : ℕ → Text) (call : Call) (w : World C)
    → is_dry call ≡ true
    → left_by model print call w ≡ w
unfolding is_dry left_by deletion_reply put_one patch_one set_scale delete_one save
dry_run-unchanged model print (puts req) w dry =
    elim (Option-cases (model.find_one req.query w.items)) [
      | inl none' ↦ rw (left_by, put_one, none') refl
      | inr (r, some') ↦ elim (Option-cases req.content) [
        | inl empty ↦ rw (left_by, put_one, some', empty) refl
        | inr (content, full) ↦
            rw (left_by, put_one, some', full)
              (put_found-dry model print req r w content.0 content.1 dry)
      ]
    ]
dry_run-unchanged model print (patches req) w dry =
    elim (Option-cases (model.find_one req.query w.items)) [
      | inl none' ↦ rw (left_by, patch_one, none') refl
      | inr (r, some') ↦ elim (Bool-cases req.is_empty) [
        | inl empty ↦ rw (left_by, patch_one, some', empty) refl
        | inr full ↦ rw (left_by, patch_one, some', full) (patch_found-dry model print req r w dry)
      ]
    ]
dry_run-unchanged model print (scales req) w dry = elim (Option-cases req.replicas) [
  | inl none' ↦ rw (left_by, set_scale, none') refl
  | inr (n, asks) ↦ elim (Option-cases (model.find_one req.query w.items)) [
    | inl none' ↦ rw (left_by, set_scale, asks, none') refl
    | inr (r, some') ↦
        rw (left_by, set_scale, asks, some') (scale_found-dry model print req n r w dry)
  ]
]
dry_run-unchanged model print (deletes q query_dry_run body_dry_run now) w dry =
    elim (Option-cases (model.find_one q w.items)) [
      | inl none' ↦ rw (left_by, delete_one, none') refl
      | inr (r, some') ↦ rw (left_by, delete_one, some', dry) refl
    ]
dry_run-unchanged model print (saves is_cluster nameless suffix now req) w dry =
    rw (left_by, save, dry) refl
