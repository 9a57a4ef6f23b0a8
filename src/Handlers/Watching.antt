-- ===== src/Handlers/Watching.antt =====
-- A watch in `format` of middleware/general.js: what it sends for the events of its kind's bus, and for
-- the list that it starts with if it resumes from no version. A frame is an event's type and an object;
-- its encoding, as protobuf, as a table or as JSON, is left out.
use nodejs_k8s.Prelude.{
  ℕ, Bool, true, not, Option, none, some, List, [], ◌∷◌, ◌++◌, Text, text_eq, ◌==◌, any, filter,
  ltb, if◌then◌else◌,
}
use nodejs_k8s.Prelude.Map.{Map}
use nodejs_k8s.Json.Value.{Json, null, boolean, number, string}
use nodejs_k8s.Scheduler.Filter.{number_of}
use nodejs_k8s.Handlers.Selectors.{Condition, value_at, matches_query}

abbrev metadata_text : Text
metadata_text = b'm' ∷ b'e' ∷ b't' ∷ b'a' ∷ b'd' ∷ b'a' ∷ b't' ∷ b'a' ∷ []

abbrev name_text : Text
name_text = b'n' ∷ b'a' ∷ b'm' ∷ b'e' ∷ []

abbrev uid_text : Text
uid_text = b'u' ∷ b'i' ∷ b'd' ∷ []

abbrev version_text : Text
version_text =
    b'r' ∷ b'e' ∷ b's' ∷ b'o' ∷ b'u' ∷ b'r' ∷ b'c' ∷ b'e' ∷ b'V' ∷ b'e' ∷ b'r' ∷ b's' ∷ b'i' ∷ b'o'
    ∷ b'n' ∷ []

unfoldable pub text_or_empty : Option Json → Text
text_or_empty (some (string t)) = t
text_or_empty _ = []

-- the uid, or else the name
unfoldable pub key_for : Json → Text
unfolding value_at text_or_empty
key_for obj =
    let uid = text_or_empty (value_at (metadata_text ∷ uid_text ∷ []) (some obj)) in
    if uid == [] then text_or_empty (value_at (metadata_text ∷ name_text ∷ []) (some obj)) else uid

-- `Number(value)` where it is finite; of texts, a plain decimal numeral or nothing is read as a number, and
-- what JavaScript makes of other numerals and of arrays is left out
unfoldable pub finite : Option Json → Option ℕ
finite (some (number n)) = some n
finite (some (string t)) = number_of (some t)
finite (some null) = some 0
finite (some (boolean b)) = some (if b then 1 else 0)
finite _ = none

unfoldable pub version_of : Json → Option ℕ
unfolding value_at finite
version_of obj = finite (value_at (metadata_text ∷ version_text ∷ []) (some obj))

-- the version to resume from, of the request's parameter; 0 is none
unfoldable pub resume_from : Option Text → Option ℕ
resume_from asked = elim (number_of asked) [
  | none ↦ none
  | some n ↦ if ltb 0 n then some n else none
]

unfoldable pub is_above : Option ℕ → ℕ → Bool
is_above none resume = true
is_above (some version) resume = ltb resume version

unfoldable pub is_newer : Option ℕ → Json → Bool
unfolding version_of is_above
is_newer none obj = true
is_newer (some resume) obj = is_above (version_of obj) resume

pub data Change : Type 0 where
  added modified deleted : Change

abbrev pub Frame : Type 0
Frame = Change × Json

pub data BusEvent : Type 0 where
  on_created on_updated on_deleted : Json → BusEvent
  on_listed : List Json → BusEvent

pub record Watch : Type 0 where
  pub resume : Option ℕ
  pub seen : List Text
  pub sent : List Frame

unfoldable pub has_seen : Text → List Text → Bool
has_seen key seen = any (λ k. k == key) seen

-- `seen.add(key)`
unfoldable pub see : Text → List Text → List Text
unfolding has_seen
see key seen = if has_seen key seen then seen else seen ++ key ∷ []

module _ (print : Json → Text) (scope : Map Text Condition) where
  unfoldable pub push : Change → Json → Watch → Watch
  unfolding matches_query
  push change obj w =
      if matches_query print obj scope then record w { sent = w.sent ++ (change, obj) ∷ [] } else w

  -- the list that a watch starts with
  unfoldable pub push_listed : List Json → Watch → Watch
  unfolding push see key_for
  push_listed [] w = w
  push_listed (obj ∷ objs) w =
      push_listed objs (push added obj (record w { seen = see (key_for obj) w.seen }))

  unfoldable pub handle : BusEvent → Watch → Watch
  unfolding push push_listed see has_seen key_for is_newer
  handle (on_created obj) w =
      if has_seen (key_for obj) w.seen
      then w
      else if not (is_newer w.resume obj)
      then w
      else push added obj (record w { seen = see (key_for obj) w.seen })
  handle (on_updated obj) w =
      if not (is_newer w.resume obj)
      then w
      else push modified obj (record w { seen = see (key_for obj) w.seen })
  handle (on_deleted obj) w =
      push deleted obj (record w { seen = filter (λ k. not (k == key_for obj)) w.seen })
  handle (on_listed objs) w = elim w.resume [ none ↦ push_listed objs w | some n ↦ w ]

  unfoldable pub handle_all : List BusEvent → Watch → Watch
  unfolding handle
  handle_all [] w = w
  handle_all (e ∷ es) w = handle_all es (handle e w)

unfoldable pub open_watch : Option Text → Watch
unfolding resume_from
open_watch asked = record { resume = resume_from asked; seen = []; sent = [] }
