-- ===== src/Json/Members.antt =====
-- The members of a JSON object, in the order of their insertion.
use nodejs_k8s.Prelude.{
  Option, none, some, ◌≡◌, refl, arith, Text, text_eq, text_beq_iff, ◌==◌, if◌then◌else◌,
}
use nodejs_k8s.Json.Value.{Json, Members, no_members, member}

-- `value[key]`
unfoldable pub get : Text → Members → Option Json
get key no_members = none
get key (member k v ms) = let rest = get key ms in if k == key then some v else rest

-- `value[key] = v`: in place, or behind the others
unfoldable pub set : Text → Json → Members → Members
set key v no_members = member key v no_members
set key v (member k w ms) =
    let rest = set key v ms in if k == key then member k v ms else member k w rest

-- `delete value[key]`
unfoldable pub delete : Text → Members → Members
delete key no_members = no_members
delete key (member k w ms) = let rest = delete key ms in if k == key then rest else member k w rest

pub get-set :
    (key other : Text) (v : Json) (ms : Members)
    → get other (set key v ms) ≡ (if key == other then some v else get other ms)
unfolding get set
get-set key other v no_members = ground (arith, text_beq_iff key other)
get-set key other v (member k w ms) = ground (
  arith,
  text_beq_iff key other,
  text_beq_iff k key,
  text_beq_iff k other,
  get-set key other v ms,
)

pub get-delete :
    (key other : Text) (ms : Members)
    → get other (delete key ms) ≡ (if key == other then none else get other ms)
unfolding get delete
get-delete key other no_members = ground arith
get-delete key other (member k w ms) = ground (
  arith,
  text_beq_iff key other,
  text_beq_iff k key,
  text_beq_iff k other,
  get-delete key other ms,
)

-- writing what is there changes nothing
pub set-get : (key : Text) (v : Json) (ms : Members) → get key ms ≡ some v → set key v ms ≡ ms
unfolding get set
set-get key v no_members h = absurd (ground (arith, h))
set-get key v (member k w ms) h = ground (arith, h, set-get key v ms)

pub delete-absent : (key : Text) (ms : Members) → get key ms ≡ none → delete key ms ≡ ms
unfolding get delete
delete-absent key no_members h = refl
delete-absent key (member k w ms) h = ground (arith, h, delete-absent key ms)
