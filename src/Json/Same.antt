-- ===== src/Json/Same.antt =====
-- `canonical` and `sameValue` of middleware/general.js: values compared without the order of members.
use nodejs_k8s.Prelude.{
  Bool, true, false, ◌&&◌, Option, none, some, ◌≡◌, refl, arith, Text, text_eq, text_ltb, ◌==◌,
  if◌then◌else◌, nat_eq, beq_refl,
}
use nodejs_k8s.Json.Value.{
  Json, null, boolean, number, string, array, object, Items, no_items, item, Members, no_members,
  member,
}

-- a member at its place among sorted keys
unfoldable pub insert_member : Text → Json → Members → Members
insert_member key v no_members = member key v no_members
insert_member key v (member k w ms) =
    let rest = insert_member key v ms in
    if text_ltb k key then member k w rest else member key v (member k w ms)

unfoldable mutual
  unfolding insert_member

  pub canonical : Json → Json
  canonical (array xs ms) = array (canonical_items xs) no_members
  canonical (object ms) = object (canonical_members ms)
  canonical null = null
  canonical (boolean b) = boolean b
  canonical (number n) = number n
  canonical (string t) = string t

  canonical_items : Items → Items
  canonical_items no_items = no_items
  canonical_items (item v xs) = item (canonical v) (canonical_items xs)

  canonical_members : Members → Members
  canonical_members no_members = no_members
  canonical_members (member k v ms) = insert_member k (canonical v) (canonical_members ms)

unfoldable pub same_bool : Bool → Bool → Bool
same_bool true b = b
same_bool false true = false
same_bool false false = true

-- the texts that `JSON.stringify` prints are the same
unfoldable mutual
  unfolding same_bool

  pub same : Json → Json → Bool
  same null null = true
  same (boolean a) (boolean b) = same_bool a b
  same (number m) (number n) = m == n
  same (string t) (string u) = t == u
  same (array xs _) (array ys _) = same_items xs ys
  same (object ms) (object ns) = same_members ms ns
  same _ _ = false

  same_items : Items → Items → Bool
  same_items no_items no_items = true
  same_items (item v xs) (item w ys) = same v w && same_items xs ys
  same_items _ _ = false

  same_members : Members → Members → Bool
  same_members no_members no_members = true
  same_members (member k v ms) (member j w ns) = k == j && same v w && same_members ms ns
  same_members _ _ = false

-- `undefined` is printed as nothing
unfoldable pub same_value : Option Json → Option Json → Bool
same_value none none = true
same_value (some a) (some b) = same (canonical a) (canonical b)
same_value _ _ = false

mutual
  unfolding same same_bool

  same_refl : (v : Json) → same v v ≡ true
  same_refl null = refl
  same_refl (boolean true) = refl
  same_refl (boolean false) = refl
  same_refl (number n) = ground arith
  same_refl (string t) = beq_refl t
  same_refl (array xs ms) = same_items_refl xs
  same_refl (object ms) = same_members_refl ms

  same_items_refl : (xs : Items) → same_items xs xs ≡ true
  same_items_refl no_items = refl
  same_items_refl (item v xs) = ground (arith, same_refl v, same_items_refl xs)

  same_members_refl : (ms : Members) → same_members ms ms ≡ true
  same_members_refl no_members = refl
  same_members_refl (member k v ms) = ground (arith, beq_refl k, same_refl v, same_members_refl ms)

pub same_value_refl : (v : Option Json) → same_value v v ≡ true
unfolding same_value
same_value_refl none = refl
same_value_refl (some v) = same_refl (canonical v)
