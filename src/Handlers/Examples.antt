-- ===== src/Handlers/Examples.antt =====
-- The theorems of the handlers at concrete inputs.
use nodejs_k8s.Prelude.{
  Bool-cases, inl, inr, true, [], ◌∷◌, ◌≡◌, refl, text_eq, Option, none, some, List, Text, arith,
  ◌==◌, if◌then◌else◌, every, All,
}
use nodejs_k8s.Json.Value.{object, no_members, member, string, Json}
use nodejs_k8s.Json.Members.{get}
use nodejs_k8s.Handlers.Selectors.{Clause, equal_to, absent, find_params, matches_query, label_of}
use nodejs_k8s.Handlers.Labels.{
  as_json, IsPlain, holds, clause_holds, in_namespace, matches_query-labels,
}
use nodejs_k8s.Scheduler.Filter.{number_of}
use nodejs_k8s.Handlers.Watching.{
  BusEvent, on_created, on_updated, on_deleted, handle_all, open_watch, resume_from,
}
use nodejs_k8s.Handlers.Resuming.{IsNews, handle_all-IsNews}

-- how a template prints what is no text
abbrev printed : Json → Text
printed v = []

abbrev labels_member : Text
labels_member = b'l' ∷ b'a' ∷ b'b' ∷ b'e' ∷ b'l' ∷ b's' ∷ []

abbrev metadata_member : Text
metadata_member = b'm' ∷ b'e' ∷ b't' ∷ b'a' ∷ b'd' ∷ b'a' ∷ b't' ∷ b'a' ∷ []

abbrev version_member : Text
version_member =
    b'r' ∷ b'e' ∷ b's' ∷ b'o' ∷ b'u' ∷ b'r' ∷ b'c' ∷ b'e' ∷ b'V' ∷ b'e' ∷ b'r' ∷ b's' ∷ b'i' ∷ b'o'
    ∷ b'n' ∷ []

-- an object with the label `a` at a version
abbrev labelled_at : Text → Json
labelled_at version = object (
    member metadata_member
      (object (
        member version_member (string version) (
          member labels_member (object (member (b'a' ∷ []) (string (b'x' ∷ [])) no_members))
            no_members)))
      no_members)

abbrev its_labels : Text → Option Text
its_labels key = if (b'a' ∷ []) == key then some (b'x' ∷ []) else none

its_labels-label_of :
    (key : Text) → label_of (labelled_at (b'5' ∷ [])) key ≡ as_json (its_labels key)
unfolding label_of get as_json
its_labels-label_of key = elim (Bool-cases ((b'a' ∷ []) == key)) [
  | inl yes' ↦ rw yes' refl
  | inr no' ↦ rw no' refl
]

abbrev clauses : List Clause
clauses =
    record { key = b'a' ∷ []; operation = equal_to (b'x' ∷ []) }
    ∷ record { key = b'b' ∷ []; operation = absent }
    ∷ []

clauses-IsPlain : All (λ c. IsPlain c.operation) clauses
unfolding IsPlain
clauses-IsPlain = ((λ h. absurd (ground (arith, h))), (tt, tt))

matches_query-labels_example :
    matches_query printed
      (labelled_at (b'5' ∷ []))
      (find_params (record { name = []; namespace = []; node = []; fields = []; labels = clauses }))
    ≡ true
unfolding clause_holds holds in_namespace every
matches_query-labels_example =
    matches_query-labels printed (labelled_at (b'5' ∷ [])) its_labels its_labels-label_of [] clauses
      clauses-IsPlain

abbrev events : List BusEvent
events =
    on_created (labelled_at (b'2' ∷ []))
    ∷ on_updated (labelled_at (b'5' ∷ []))
    ∷ on_deleted (labelled_at (b'2' ∷ []))
    ∷ []

handle_all-IsNews_example :
    All
      (IsNews 3)
      (handle_all printed
        (find_params
          (record { name = []; namespace = []; node = []; fields = []; labels = clauses }))
        events
        (open_watch (some (b'3' ∷ [])))).sent
unfolding resume_from number_of
handle_all-IsNews_example =
    handle_all-IsNews printed
      (find_params (record { name = []; namespace = []; node = []; fields = []; labels = clauses }))
      3 (some (b'3' ∷ [])) events refl
