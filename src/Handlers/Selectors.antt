-- ===== src/Handlers/Selectors.antt =====
-- Which objects a list or a watch is about: `genFindQuery` of objects/object.js, and `evaluateExpr` and
-- `matchesQuery` of middleware/general.js, which a watch asks of each event. A selector comes parsed.
use nodejs_k8s.Prelude.{
  ℕ, Bool, true, false, not, Option, none, some, List, [], ◌∷◌, Text, text_eq, nat_eq, ◌==◌, any,
  every, if◌then◌else◌,
}
use nodejs_k8s.Prelude.Map
use nodejs_k8s.Prelude.Map.{Map}
use nodejs_k8s.Json.Value.{Json, null, string, array, object}
use nodejs_k8s.Json.Members.{get}

-- what one clause of a selector asks of its key
pub data Operation : Type 0 where
  equal_to not_equal_to : Text → Operation
  within outside : List Text → Operation
  present absent : Operation

pub record Clause : Type 0 where
  pub key : Text
  pub operation : Operation

-- the aggregation expressions that are generated, of a label; `none` is null
pub data Expr : Type 0 where
  eq ne : Text → Option Text → Expr
  in_list : Text → List Text → Expr
  negated : Expr → Expr

unfoldable pub expr_of : Clause → Expr
expr_of c = elim c.operation [
  | equal_to v ↦ eq c.key (some v)
  | not_equal_to v ↦ ne c.key (some v)
  | within vs ↦ in_list c.key vs
  | outside vs ↦ negated (in_list c.key vs)
  | present ↦ ne c.key none
  | absent ↦ eq c.key none
]

unfoldable pub exprs_of : List Clause → List Expr
unfolding expr_of
exprs_of [] = []
exprs_of (c ∷ cs) = expr_of c ∷ exprs_of cs

-- what the parameters of a query ask at a path
pub data Condition : Type 0 where
  is_text is_not_text : Text → Condition
  all_exprs : List Expr → Condition

-- a request's parameters; an empty name is none
pub record ListQuery : Type 0 where
  pub name : Text
  pub namespace : Text
  pub node : Text
  pub fields : List Clause
  pub labels : List Clause

abbrev name_path : Text
name_path =
    b'm' ∷ b'e' ∷ b't' ∷ b'a' ∷ b'd' ∷ b'a' ∷ b't' ∷ b'a' ∷ b'.' ∷ b'n' ∷ b'a' ∷ b'm' ∷ b'e' ∷ []

abbrev pub namespace_path : Text
namespace_path =
    b'm' ∷ b'e' ∷ b't' ∷ b'a' ∷ b'd' ∷ b'a' ∷ b't' ∷ b'a' ∷ b'.' ∷ b'n' ∷ b'a' ∷ b'm' ∷ b'e' ∷ b's'
    ∷ b'p' ∷ b'a' ∷ b'c' ∷ b'e' ∷ []

abbrev node_path : Text
node_path =
    b'm' ∷ b'e' ∷ b't' ∷ b'a' ∷ b'd' ∷ b'a' ∷ b't' ∷ b'a' ∷ b'.' ∷ b'n' ∷ b'o' ∷ b'd' ∷ b'e' ∷ []

abbrev and_key : Text
and_key = b'$' ∷ b'a' ∷ b'n' ∷ b'd' ∷ []

unfoldable pub with_given : Text → Text → Map Text Condition → Map Text Condition
with_given path value params = if value == [] then params else Map.set path (is_text value) params

-- of a field selector, only equality and inequality count
unfoldable pub with_field : Clause → Map Text Condition → Map Text Condition
with_field c params = elim c.operation [
  | equal_to v ↦ Map.set c.key (is_text v) params
  | not_equal_to v ↦ Map.set c.key (is_not_text v) params
  | _ ↦ params
]

unfoldable pub with_fields : List Clause → Map Text Condition → Map Text Condition
unfolding with_field
with_fields [] params = params
with_fields (c ∷ cs) params = with_fields cs (with_field c params)

unfoldable pub with_labels : List Clause → Map Text Condition → Map Text Condition
unfolding exprs_of
with_labels [] params = params
with_labels (c ∷ cs) params = Map.set and_key (all_exprs (exprs_of (c ∷ cs))) params

unfoldable pub find_params : ListQuery → Map Text Condition
unfolding with_given with_fields with_labels
find_params q = with_labels q.labels (
    with_fields q.fields (
      with_given node_path q.node
        (with_given namespace_path q.namespace (with_given name_path q.name []))))

-- `path.split('.')`
unfoldable pub add_first : ℕ → List Text → List Text
add_first c [] = (c ∷ []) ∷ []
add_first c (part ∷ parts) = (c ∷ part) ∷ parts

unfoldable pub split_dots : Text → List Text
unfolding add_first
split_dots [] = [] ∷ []
split_dots (c ∷ cs) = let rest = split_dots cs in if c == b'.' then [] ∷ rest else add_first c rest

-- `value[key]`; the properties of texts and the lengths of arrays are left out
unfoldable pub member_of : Text → Option Json → Option Json
member_of key (some (object ms)) = get key ms
member_of key (some (array xs ms)) = get key ms
member_of key _ = none

unfoldable pub value_at : List Text → Option Json → Option Json
unfolding member_of
value_at [] value = value
value_at (key ∷ keys) value = value_at keys (member_of key value)

abbrev labels_path : List Text
labels_path =
    (b'm' ∷ b'e' ∷ b't' ∷ b'a' ∷ b'd' ∷ b'a' ∷ b't' ∷ b'a' ∷ [])
    ∷ (b'l' ∷ b'a' ∷ b'b' ∷ b'e' ∷ b'l' ∷ b's' ∷ [])
    ∷ []

unfoldable pub label_of : Json → Text → Option Json
unfolding value_at member_of
label_of obj key = member_of key (value_at labels_path (some obj))

abbrev pub undefined_text : Text
undefined_text = b'u' ∷ b'n' ∷ b'd' ∷ b'e' ∷ b'f' ∷ b'i' ∷ b'n' ∷ b'e' ∷ b'd' ∷ []

unfoldable pub is_missing : Option Json → Bool
is_missing none = true
is_missing (some null) = true
is_missing _ = false

-- `print` is how a template prints a value that is no text
module _ (print : Json → Text) where
  unfoldable pub text_in : Option Json → Text
  text_in none = undefined_text
  text_in (some (string t)) = t
  text_in (some v) = print v

  unfoldable pub evaluate_expr : Json → Expr → Bool
  unfolding text_in label_of is_missing
  evaluate_expr obj (eq key none) = is_missing (label_of obj key)
  evaluate_expr obj (eq key (some v)) = text_in (label_of obj key) == v
  evaluate_expr obj (ne key none) = not (is_missing (label_of obj key))
  evaluate_expr obj (ne key (some v)) = not (text_in (label_of obj key) == v)
  evaluate_expr obj (in_list key vs) = any (λ v. v == text_in (label_of obj key)) vs
  evaluate_expr obj (negated e) = not (evaluate_expr obj e)

  unfoldable pub meets_condition : Json → Text × Condition → Bool
  unfolding evaluate_expr value_at split_dots text_in
  meets_condition obj (path, is_text v) = text_in (value_at (split_dots path) (some obj)) == v
  meets_condition obj (path, is_not_text v) =
      not (text_in (value_at (split_dots path) (some obj)) == v)
  meets_condition obj (path, all_exprs es) = every (evaluate_expr obj) es

  unfoldable pub matches_query : Json → Map Text Condition → Bool
  unfolding meets_condition
  matches_query obj params = every (meets_condition obj) params
