-- ===== src/Gateway/Decode.antt =====
-- `b64`, `bytes`, `rangeArgs`, `decodeOp` and `decodeCompare` of store/gateway.js. A body is a record
-- of the fields that `field` looks up, under either of their spellings; a field that is missing or null
-- is `none`. A number is taken as the natural number that `Number` reads, and an enum by its value.
use nodejs_k8s.Prelude.{ℕ, Text, Bool, false, Option, none, some, []}
use nodejs_k8s.Mvcc.Types.{Bytes, Codec}
use nodejs_k8s.Mvcc.Read.{SortOrder, SortTarget, unsorted, by_key, Revision, at, RangeOptions}
use nodejs_k8s.Mvcc.Compare.{
  CommandValue, buffer, encoded, Target, CompareResult, Compare, value, version, equal,
}
use nodejs_k8s.Mvcc.Batch.{Op, put, delete_range, range_op}

-- `a ?? fallback`
unfoldable pub or_default {ℓ} : {A : Type ℓ} → A → Option A → A
or_default fallback none = fallback
or_default fallback (some a) = a

-- `bytes(value)`, and `b64(value)`
unfoldable pub bytes : Codec → Option Text → Bytes
unfolding or_default
bytes c text = c.from_base64 (or_default [] text)

unfoldable pub b64 : Codec → Option Text → Text
b64 c text = c.to_text (bytes c text)

pub record RangeBody : Type 0 where
  pub key : Option Text
  pub range_end : Option Text
  pub limit : Option ℕ
  pub revision : Option Revision
  pub count_only : Option Bool
  pub keys_only : Option Bool
  pub sort_order : Option SortOrder
  pub sort_target : Option SortTarget

unfoldable pub range_args : Codec → RangeBody → RangeOptions
range_args c body = record {
  range_end = b64 c body.range_end;
  revision = or_default (at 0) body.revision;
  limit = or_default 0 body.limit;
  count_only = or_default false body.count_only;
  keys_only = or_default false body.keys_only;
  sort_order = or_default unsorted body.sort_order;
  sort_target = or_default by_key body.sort_target;
}

pub record PutBody : Type 0 where
  pub key : Option Text
  pub value : Option Text
  pub lease : Option ℕ
  pub prev_kv : Option Bool

pub record DeleteBody : Type 0 where
  pub key : Option Text
  pub range_end : Option Text
  pub prev_kv : Option Bool

pub record OpBody : Type 0 where
  pub request_put : Option PutBody
  pub request_delete_range : Option DeleteBody
  pub request_range : Option RangeBody

-- `ignoreValue` and `ignoreLease` are not read inside a transaction
unfoldable pub decode_put : Codec → PutBody → Op
decode_put c body =
    put (b64 c body.key) (buffer (bytes c body.value))
      (record { lease = or_default 0 body.lease; ignore_value = false; ignore_lease = false })
      (or_default false body.prev_kv)

-- an operation of no known kind is the error with code 3
unfoldable pub decode_op : Codec → OpBody → Option Op
decode_op c body = elim body.request_put [
  | some p ↦ some (decode_put c p)
  | none ↦ elim body.request_delete_range [
    | some d ↦ some (delete_range (b64 c d.key) (b64 c d.range_end) (or_default false d.prev_kv))
    | none ↦ elim body.request_range [
      | some r ↦ some (range_op (b64 c r.key) (range_args c r))
      | none ↦ none
    ]
  ]
]

pub record CompareBody : Type 0 where
  pub key : Option Text
  pub target : Option Target
  pub result : Option CompareResult
  pub version : Option ℕ
  pub create_revision : Option ℕ
  pub mod_revision : Option ℕ
  pub lease : Option ℕ
  pub value : Option Text

-- the value is `undefined` unless it is the target, and is then read as the empty text
unfoldable pub compare_value : Codec → Target → Option Text → CommandValue
compare_value c value text = buffer (bytes c text)
compare_value c _ text = encoded []

unfoldable pub decode_compare : Codec → CompareBody → Compare
unfolding or_default b64 bytes compare_value
decode_compare c body =
    let target = or_default version body.target in
    record {
      key = b64 c body.key;
      target = target;
      result = or_default equal body.result;
      version = some (or_default 0 body.version);
      create_revision = some (or_default 0 body.create_revision);
      mod_revision = some (or_default 0 body.mod_revision);
      lease = some (or_default 0 body.lease);
      value = compare_value c target body.value;
    }
