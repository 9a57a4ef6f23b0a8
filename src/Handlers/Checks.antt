-- ===== src/Handlers/Checks.antt =====
-- What middleware/general.js asks before it writes: `conflictsOnResourceVersion`, `isDryRun` and
-- `rejectsImmutableChange`, with the write that it foresees.
use nodejs_k8s.Prelude.{
  Bool, false, not, ◌||◌, Option, none, some, List, [], ◌∷◌, ◌++◌, Text, text_eq, ◌==◌, filter, any,
  if◌then◌else◌,
}
use nodejs_k8s.Json.Value.{boolean, Members, no_members, member}
use nodejs_k8s.Json.Members.{get}
use nodejs_k8s.Json.Merging.{merge_members}
use nodejs_k8s.Json.Same.{same_value}

abbrev undefined_text : Text
undefined_text = b'u' ∷ b'n' ∷ b'd' ∷ b'e' ∷ b'f' ∷ b'i' ∷ b'n' ∷ b'e' ∷ b'd' ∷ []

-- a version in a template
unfoldable pub shown : Option Text → Text
shown none = undefined_text
shown (some t) = t

-- the versions that the request and the stored object name
unfoldable pub conflicts : Option Text → Option Text → Bool
unfolding shown
conflicts none current = false
conflicts (some sent) current = if sent == [] then false else not (sent == shown current)

-- a `dryRun` parameter, given once or several times
pub data DryRun : Type 0 where
  once : Text → DryRun
  several : List Text → DryRun

abbrev all_text : Text
all_text = b'A' ∷ b'l' ∷ b'l' ∷ []

unfoldable pub asks_dry_run : Option DryRun → Bool
asks_dry_run none = false
asks_dry_run (some (once t)) = t == all_text
asks_dry_run (some (several ts)) = any (λ t. t == all_text) ts

-- of the query and of the body
unfoldable pub is_dry_run : Option DryRun → Option DryRun → Bool
unfolding asks_dry_run
is_dry_run query body = asks_dry_run query || asks_dry_run body

-- A write's body: of a PUT, of a merge patch, or of a JSON patch, which is given by what it makes of an
-- object.
pub data Write : Type 0 where
  replace : Members → Write
  merge : Members → Write
  json_patch : (Members → Members) → Write

-- `projectedWrite`
unfoldable pub projected_write : Members → Write → Members
projected_write current (replace body) = merge_members current body
projected_write current (merge body) = merge_members current body
projected_write current (json_patch apply) = apply current

-- what an immutable object is compared with: a PUT replaces
unfoldable pub left_behind : Members → Write → Members
unfolding projected_write
left_behind stored (replace body) = body
left_behind stored w = projected_write stored w

unfoldable pub keys : Members → List Text
keys no_members = []
keys (member k v ms) = k ∷ keys ms

abbrev pub metadata_key : Text
metadata_key = b'm' ∷ b'e' ∷ b't' ∷ b'a' ∷ b'd' ∷ b'a' ∷ b't' ∷ b'a' ∷ []

abbrev pub api_version_key : Text
api_version_key = b'a' ∷ b'p' ∷ b'i' ∷ b'V' ∷ b'e' ∷ b'r' ∷ b's' ∷ b'i' ∷ b'o' ∷ b'n' ∷ []

abbrev pub kind_key : Text
kind_key = b'k' ∷ b'i' ∷ b'n' ∷ b'd' ∷ []

abbrev pub immutable_key : Text
immutable_key = b'i' ∷ b'm' ∷ b'm' ∷ b'u' ∷ b't' ∷ b'a' ∷ b'b' ∷ b'l' ∷ b'e' ∷ []

unfoldable pub is_exempt : Text → Bool
is_exempt key = key == metadata_key || key == api_version_key || key == kind_key

unfoldable pub is_immutable : Members → Bool
is_immutable stored = elim (get immutable_key stored) [ some (boolean b) ↦ b | _ ↦ false ]

-- the keys of both, as often as they are named: the source's `Set` keeps the first of each
unfoldable pub frozen : Members → Members → List Text
unfolding is_exempt keys
frozen stored projected = filter (λ key. not (is_exempt key)) (keys stored ++ keys projected)

unfoldable pub touched : Members → Members → List Text
unfolding frozen
touched stored projected =
    filter (λ key. not (same_value (get key stored) (get key projected))) (frozen stored projected)

unfoldable pub first_of : List Text → Option Text
first_of [] = none
first_of (key ∷ keys) = some key

-- the field that the refusal names, if the write is refused
unfoldable pub rejects_immutable : Members → Write → Option Text
unfolding is_immutable touched first_of left_behind
rejects_immutable stored w =
    if is_immutable stored then first_of (touched stored (left_behind stored w)) else none
