-- ===== src/Mvcc/Compare.antt =====
-- The guards of a transaction: `compare` and `fromCommand` of store/mvcc.js.
use Prim.Native.Nat.{compare as nat_compare, Ordering}
use nodejs_k8s.Prelude.{ℕ, Text, Bool, true, false, Option, none, some, []}
use nodejs_k8s.Mvcc.Types.{Bytes, Codec, Entry, Store}
use nodejs_k8s.Mvcc.Read.{entry_at, text_compare}

-- a value inside a command: a buffer, or base64 text, empty if the field is missing
pub data CommandValue : Type 0 where
  buffer : Bytes → CommandValue
  encoded : Text → CommandValue

unfoldable pub from_command : Codec → CommandValue → Bytes
from_command c (buffer b) = b
from_command c (encoded t) = c.from_base64 t

pub data Target : Type 0 where
  value create mod_revision lease version : Target

pub data CompareResult : Type 0 where
  greater less not_equal equal : CompareResult

-- the fields that a comparison may carry; an absent one is `undefined`
pub record Compare : Type 0 where
  pub key : Text
  pub target : Target
  pub result : CompareResult
  pub version : Option ℕ
  pub create_revision : Option ℕ
  pub mod_revision : Option ℕ
  pub lease : Option ℕ
  pub value : CommandValue

-- `a ?? b`
infixr 20 ◌or_else◌
abbrev pub ◌or_else◌ : Option ℕ → ℕ → ℕ
none or_else b = b
some a or_else b = a

-- `Number(cmp.version ?? cmp.createRevision ?? cmp.modRevision ?? cmp.lease ?? 0)`
unfoldable pub expected : Compare → ℕ
expected cmp =
    cmp.version or_else cmp.create_revision or_else cmp.mod_revision or_else cmp.lease or_else 0

unfoldable pub entry_field {ℓ} : {A : Type ℓ} → A → (Entry → A) → Option Entry → A
entry_field default get none = default
entry_field default get (some entry) = get entry

-- `actual` for the numeric targets
unfoldable pub actual : Target → Option Entry → ℕ
unfolding entry_field
actual create e = entry_field 0 (λ x. x.create_revision) e
actual mod_revision e = entry_field 0 (λ x. x.rev) e
actual lease e = entry_field 0 (λ x. x.lease) e
actual _ e = entry_field 0 (λ x. x.version) e

-- the `ordering` of the actual value and the expected one
unfoldable pub order_target : Codec → Option Entry → Compare → Target → Ordering
unfolding entry_field actual expected
order_target c e cmp value =
    text_compare (entry_field [] (λ x. x.value) e) (from_command c cmp.value)
order_target c e cmp create = nat_compare (actual create e) (expected cmp)
order_target c e cmp mod_revision = nat_compare (actual mod_revision e) (expected cmp)
order_target c e cmp lease = nat_compare (actual lease e) (expected cmp)
order_target c e cmp version = nat_compare (actual version e) (expected cmp)

unfoldable pub holds : CompareResult → Ordering → Bool
holds greater o = elim o [ Ordering.gt ↦ true | _ ↦ false ]
holds less o = elim o [ Ordering.lt ↦ true | _ ↦ false ]
holds not_equal o = elim o [ Ordering.eq ↦ false | _ ↦ true ]
holds equal o = elim o [ Ordering.eq ↦ true | _ ↦ false ]

unfoldable pub compare : Codec → Store → Compare → Bool
unfolding order_target holds
compare c s cmp = holds cmp.result (order_target c (entry_at s cmp.key 0) cmp cmp.target)
