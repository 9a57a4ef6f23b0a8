-- ===== src/Objects/Writes.antt =====
-- The writes of objects/object.js: `create`, `delete`, `finalizeIfReleased`, `update` and `patch`. The
-- time that a write stamps, the random suffix of a name, and how a version prints are arguments.
use nodejs_k8s.Prelude.{
  ℕ, ◌+◌, Bool, true, false, not, ◌&&◌, ◌||◌, Option, none, some, List, [], ◌∷◌, ◌++◌, Text,
  text_eq, ◌==◌, if◌then◌else◌,
}
use nodejs_k8s.Prelude.Map.{Map}
use nodejs_k8s.Json.Value.{Members}
use nodejs_k8s.Objects.Types.{
  Meta, Resource, Query, Collection, Event, created, updated, deleted, World,
}

unfoldable pub has_finalizers : Meta → Bool
has_finalizers meta = elim meta.finalizers [ [] ↦ false | f ∷ fs ↦ true ]

unfoldable pub is_deleting : Meta → Bool
is_deleting meta = elim meta.deletion [ none ↦ false | some t ↦ not (t == []) ]

-- the query that a resource's own name and namespace make, where the caller gives none
unfoldable pub query_or_own : Resource → Option Query → Query
query_or_own r none = record { name = r.meta.name; namespace = some r.meta.namespace }
query_or_own r (some q) = q

-- what a caller's `metadata` gives; a timestamp may be given as null
pub record MetaChange : Type 0 where
  pub deletion : Option (Option Text)
  pub finalizers : Option (List Text)
  pub labels : Option (Map Text Text)

unfoldable pub given_or {ℓ} : {A : Type ℓ} → A → Option A → A
given_or old none = old
given_or old (some new) = new

-- the spread of the caller's metadata over the stored, with the server's own fields behind
unfoldable pub merged_meta : Meta → MetaChange → Meta
unfolding given_or
merged_meta old change = record old {
  deletion = given_or old.deletion change.deletion;
  finalizers = given_or old.finalizers change.finalizers;
  labels = given_or old.labels change.labels;
}

-- what a create is given; an empty name is none
pub record Draft : Type 0 where
  pub name : Text
  pub generate_name : Text
  pub meta : Meta
  pub labels : Option (Map Text Text)
  pub body : Members

pub data CreateError : Type 0 where
  invalid already_exists : CreateError

abbrev name_key : Text
name_key = b'n' ∷ b'a' ∷ b'm' ∷ b'e' ∷ []

-- `applyGenerateName`, with the prefix that a nameless kind has
unfoldable pub generated_name : Option Text → Text → Draft → Text
generated_name nameless suffix draft =
    let prefix : Text =
      if draft.generate_name == [] then given_or [] nameless else draft.generate_name in
    if not (draft.name == []) then draft.name else if prefix == [] then [] else prefix ++ suffix

unfoldable pub labels_or_name : Text → Option (Map Text Text) → Map Text Text
labels_or_name name none = (name_key, name) ∷ []
labels_or_name name (some labels) = labels

module _ {C : Type 0} (model : Collection C) (print : ℕ → Text) where
  unfoldable pub next_version : World C → Text × World C
  next_version w = (print (w.counter + 1), record w { counter = w.counter + 1 })

  unfoldable pub emit : Event → World C → World C
  emit event w = record w { events = w.events ++ event ∷ [] }

  unfoldable pub insert_new : Text → Text → Draft → World C → Resource × World C
  unfolding next_version emit labels_or_name
  insert_new now name draft w =
      let (version, w') = next_version w in
      let new : Resource = record {
        meta = record draft.meta {
          name = name;
          creation = now;
          labels = labels_or_name name draft.labels;
          version = version;
        };
        body = draft.body;
      } in
      (new, emit (created new) (record w' { items = model.insert_one new w'.items }))

  unfoldable pub create :
      Option Text
      → Text
      → Text
      → Draft
      → Option Query
      → World C
      → (Option CreateError × Option Resource) × World C
  unfolding generated_name insert_new query_or_own
  create nameless suffix now draft asked w =
      let name = generated_name nameless suffix draft in
      if name == []
      then ((some invalid, none), w)
      else elim (model.find_one
          (given_or (record { name = name; namespace = some draft.meta.namespace }) asked)
          w.items) [
            | some old ↦ ((some already_exists, none), w)
            | none ↦ let (new, w') = insert_new now name draft w in ((none, some new), w')
          ]

  unfoldable pub stamp : Text → Text → Resource → Resource
  stamp now version r = record r { meta = record r.meta { deletion = some now; version = version } }

  -- what `delete` of the resource `self`, as it was read, returns and does
  unfoldable pub delete : Text → Resource → Option Query → World C → Option Resource × World C
  unfolding has_finalizers is_deleting query_or_own next_version emit stamp
  delete now self asked w =
      let q = query_or_own self asked in
      if has_finalizers self.meta && is_deleting self.meta
      then (model.find_one q w.items, w)
      else if has_finalizers self.meta
      then (let (version, w') = next_version w in
          let (result, items) = model.find_one_and_update q (stamp now version) w'.items in
          elim result [
            | none ↦ (none, record w' { items = items })
            | some r ↦ (some r, emit (updated r) (record w' { items = items }))
          ])
      else (let (result, items) = model.find_one_and_delete q w.items in
          elim result [
            | none ↦ (none, record w { items = items })
            | some r ↦ (some r, emit (deleted r) (record w { items = items }))
          ])

  -- after every write: a resource that is being deleted goes with its last finalizer
  unfoldable pub finalize_if_released : Resource → Query → World C → Resource × World C
  unfolding has_finalizers is_deleting emit given_or
  finalize_if_released r q w =
      if not (is_deleting r.meta) || has_finalizers r.meta
      then (r, w)
      else let (result, items) = model.find_one_and_delete q w.items in
        let gone = given_or r result in (gone, emit (deleted gone) (record w { items = items }))

  unfoldable pub announce : Query → Option Resource × World C → Option Resource × World C
  unfolding emit finalize_if_released
  announce q (none, w) = (none, w)
  announce q (some r, w) =
      let (r', w') = finalize_if_released r q (emit (updated r) w) in (some r', w')

  unfoldable pub replacement : Resource → MetaChange → Members → Text → Resource
  unfolding merged_meta
  replacement self change body version = record {
    meta = record (merged_meta self.meta change) { version = version };
    body = body;
  }

  -- a PUT, of the resource as it was read
  unfoldable pub update :
      Resource → MetaChange → Members → Option Query → World C → Option Resource × World C
  unfolding query_or_own next_version replacement announce
  update self change body asked w =
      let q = query_or_own self asked in
      let (version, w') = next_version w in
      let (result, items) =
        model.find_one_and_replace q (replacement self change body version) w'.items in
      announce q (result, record w' { items = items })

  unfoldable pub with_version : Text → Resource → Resource
  with_version version r = record r { meta = record r.meta { version = version } }

  -- a PATCH, given by what the database's operators make of a document
  unfoldable pub patch :
      Resource → (Resource → Resource) → Option Query → World C → Option Resource × World C
  unfolding query_or_own next_version with_version announce
  patch self change asked w =
      let q = query_or_own self asked in
      let (version, w') = next_version w in
      let (result, items) =
        model.find_one_and_update q (λ r. with_version version (change r)) w'.items in
      announce q (result, record w' { items = items })
