-- ===== src/Json/Patches.antt =====
-- `applyJsonPatchToDoc` of middleware/general.js: a JSON patch applied to a copy of the stored object. How a
-- token reads as the index of an array (`index`), and where `splice` starts for it in an array of some
-- length (`start`), are JavaScript's conversions of text to numbers. Tokens that name what an object
-- has by its prototype, and `length`, are not set apart.
use nodejs_k8s.Prelude.{
  ℕ, zero, suc, Bool, true, false, ◌&&◌, Option, none, some, List, [], ◌∷◌, map, drop, Text,
  nat_beq, if◌then◌else◌,
}
use nodejs_k8s.Json.Value.{
  Json, null, boolean, number, string, array, object, Items, no_items, item,
}
use nodejs_k8s.Json.Members.{get, set, delete}

abbrev pub slash : ℕ
slash = 47

abbrev pub tilde : ℕ
tilde = 126

-- a code unit in front of the first part
abbrev pub push : ℕ → List Text → List Text
push x [] = (x ∷ []) ∷ []
push x (part ∷ parts) = (x ∷ part) ∷ parts

-- `path.split('/')`
unfoldable pub split : Text → List Text
split [] = [] ∷ []
split (x ∷ xs) = let rest = split xs in if nat_beq x slash then [] ∷ rest else push x rest

-- a replacement of every `~` with the given mark behind it
unfoldable pub replaced : (mark by : ℕ) → Text → Text
replaced mark by [] = []
replaced mark by (x ∷ []) = x ∷ []
replaced mark by (x ∷ y ∷ rest) =
    let whole = replaced mark by rest in
    let next = replaced mark by (y ∷ rest) in
    if nat_beq x tilde && nat_beq y mark then by ∷ whole else x ∷ next

-- "~1" is read first, then "~0"
unfoldable pub unescape : Text → Text
unfolding replaced
unescape t = replaced b'0' tilde (replaced b'1' slash t)

unfoldable pub tokens_of : Text → List Text
unfolding split unescape
tokens_of path = map unescape (drop 1 (split path))

pub data Edit : Type 0 where
  add replace : Json → Edit
  remove other : Edit

pub record PatchOp : Type 0 where
  pub edit : Edit
  pub path : Text

item_at : ℕ → Items → Option Json
item_at n no_items = none
item_at zero (item x xs) = some x
item_at (suc n) (item x xs) = item_at n xs

-- behind the end the array grows, with holes that print as null
set_item : ℕ → Json → Items → Items
set_item zero v no_items = item v no_items
set_item (suc n) v no_items = item null (set_item n v no_items)
set_item zero v (item x xs) = item v xs
set_item (suc n) v (item x xs) = item x (set_item n v xs)

without_item : ℕ → Items → Items
without_item n no_items = no_items
without_item zero (item x xs) = xs
without_item (suc n) (item x xs) = item x (without_item n xs)

items_length : Items → ℕ
items_length no_items = 0
items_length (item x xs) = suc (items_length xs)

-- "undefined"
abbrev no_leaf : Text
no_leaf = b'u' ∷ b'n' ∷ b'd' ∷ b'e' ∷ b'f' ∷ b'i' ∷ b'n' ∷ b'e' ∷ b'd' ∷ []

module _ (index : Text → Option ℕ) (start : Text → ℕ → ℕ) where
  -- `cursor[token]`; what a text or a number has is not changed by an edit below it
  unfoldable pub child : Text → Json → Option Json
  unfolding item_at
  child t (object ms) = get t ms
  child t (array xs ms) = elim (index t) [ none ↦ get t ms | some n ↦ item_at n xs ]
  child t null = none
  child t (boolean b) = none
  child t (number n) = none
  child t (string s) = none

  -- `cursor[token] = v`
  unfoldable pub set_child : Text → Json → Json → Json
  unfolding set_item
  set_child t v (object ms) = object (set t v ms)
  set_child t v (array xs ms) = elim (index t) [
    | none ↦ array xs (set t v ms)
    | some n ↦ array (set_item n v xs) ms
  ]
  set_child t v null = null
  set_child t v (boolean b) = boolean b
  set_child t v (number n) = number n
  set_child t v (string s) = string s

  unfoldable pub remove_child : Text → Json → Json
  unfolding without_item items_length
  remove_child t (object ms) = object (delete t ms)
  remove_child t (array xs ms) = array (without_item (start t (items_length xs)) xs) ms
  remove_child t null = null
  remove_child t (boolean b) = boolean b
  remove_child t (number n) = number n
  remove_child t (string s) = string s

  -- an edit of a place that is null throws, and an operation of another kind does nothing
  unfoldable pub edit_leaf : Edit → Text → Json → Option Json
  unfolding set_child remove_child
  edit_leaf other t cursor = some cursor
  edit_leaf (add v) t null = none
  edit_leaf (replace v) t null = none
  edit_leaf remove t null = none
  edit_leaf (add v) t cursor = some (set_child t v cursor)
  edit_leaf (replace v) t cursor = some (set_child t v cursor)
  edit_leaf remove t cursor = some (remove_child t cursor)

  abbrev put_back : Text → Json → Option Json → Option Json
  put_back t cursor none = none
  put_back t cursor (some new) = some (set_child t new cursor)

  abbrev is_null : Json → Bool
  is_null null = true
  is_null _ = false

  -- along the tokens: what is not there ends the operation, and to go on from null throws
  unfoldable pub edit_at : Edit → List Text → Json → Option Json
  unfolding edit_leaf child set_child
  edit_at e [] cursor = edit_leaf e no_leaf cursor
  edit_at e (leaf ∷ []) cursor = edit_leaf e leaf cursor
  edit_at e (t ∷ u ∷ ts) cursor = if is_null cursor then none else elim (child t cursor) [
    | none ↦ some cursor
    | some next ↦ put_back t cursor (edit_at e (u ∷ ts) next)
  ]

  -- `none` is an error that is thrown
  unfoldable pub apply_patch : List PatchOp → Json → Option Json
  unfolding edit_at tokens_of
  apply_patch [] doc = some doc
  apply_patch (op ∷ ops) doc = elim (edit_at op.edit (tokens_of op.path) doc) [
    | none ↦ none
    | some next ↦ apply_patch ops next
  ]
