-- ===== src/Node/Commands.antt =====
-- The commands that store/node.js makes of a client's calls, what it makes of their answers, and the sweep
-- of the leases. A client's values are bytes.
use nodejs_k8s.Prelude.{
  ℕ, ◌+◌, ◌-◌, ◌*◌, ◌/◌, Text, Bool, true, false, Option, none, some, List, [], ◌∷◌, map, leb,
  nat_eq, if◌then◌else◌,
}
use nodejs_k8s.Prelude.Map
use nodejs_k8s.Mvcc.Types.{Bytes, Codec, Kv, Store}
use nodejs_k8s.Mvcc.Read.{RangeOptions}
use nodejs_k8s.Mvcc.Write.{PutOptions}
use nodejs_k8s.Mvcc.Compare.{encoded, Compare, Target}
use nodejs_k8s.Mvcc.Batch.{Op, Response, put_response, delete_response, WriteReply, Txn}
use nodejs_k8s.Mvcc.Apply.{
  Command, put, delete_range, txn, compact, lease_grant, lease_revoke, lease_keep_alive, seed,
}
use nodejs_k8s.Mvcc.Leases.{expired_leases}

-- an operation of a transaction: a put with its bytes, or one that is handed on as it is
pub data ClientOp : Type 0 where
  writes : Text → Bytes → PutOptions → Bool → ClientOp
  passes : Op → ClientOp

unfoldable pub encode_op : Codec → ClientOp → Op
encode_op c (writes key value o prev_kv) = Op.put key (encoded (c.to_base64 value)) o prev_kv
encode_op c (passes op) = op

-- a guard, and the bytes that it compares a value with
pub record ClientCompare : Type 0 where
  pub guard : Compare
  pub bytes : Bytes

is_value : Target → Bool
is_value Target.value = true
is_value _ = false

unfoldable pub encode_compare : Codec → ClientCompare → Compare
unfolding is_value
encode_compare c cmp =
    if is_value cmp.guard.target
    then record cmp.guard { value = encoded (c.to_base64 cmp.bytes) }
    else cmp.guard

pub record ClientTxn : Type 0 where
  pub compare : List ClientCompare
  pub success : List ClientOp
  pub failure : List ClientOp

unfoldable pub txn_of : Codec → ClientTxn → Txn
unfolding encode_op encode_compare
txn_of c t = record {
  compare = map (encode_compare c) t.compare;
  success = map (encode_op c) t.success;
  failure = map (encode_op c) t.failure;
}

unfoldable pub txn_command : Codec → ClientTxn → Command
unfolding txn_of
txn_command c t = txn (txn_of c t)

unfoldable pub put_command : Codec → Text → Bytes → PutOptions → Bool → Command
put_command c key value o prev_kv = put key (encoded (c.to_base64 value)) o prev_kv

pub record PutReply : Type 0 where
  pub revision : ℕ
  pub prev_kv : Option Kv

-- `result.responses?.[0]?.prevKv || null`
first_prev_kv : List Response → Option Kv
first_prev_kv (put_response kv ∷ rest) = kv
first_prev_kv _ = none

unfoldable pub put_reply : WriteReply → PutReply
unfolding first_prev_kv
put_reply r = record { revision = r.revision; prev_kv = first_prev_kv r.responses }

-- a missing `rangeEnd` is the empty text
unfoldable pub delete_command : Text → Text → Bool → Command
delete_command key range_end prev_kv = delete_range key range_end prev_kv

pub record DeleteReply : Type 0 where
  pub revision : ℕ
  pub deleted : ℕ
  pub prev_kvs : List (Option Kv)

deleted_of : List Response → ℕ
deleted_of (delete_response n kvs ∷ rest) = n
deleted_of _ = 0

prev_kvs_of : List Response → List (Option Kv)
prev_kvs_of (delete_response n kvs ∷ rest) = kvs
prev_kvs_of _ = []

unfoldable pub delete_reply : WriteReply → DeleteReply
unfolding deleted_of prev_kvs_of
delete_reply r = record {
  revision = r.revision;
  deleted = deleted_of r.responses;
  prev_kvs = prev_kvs_of r.responses;
}

-- A read that is linearizable, on a node that follows, goes through the log; the others are answered from
-- the node's own store.
unfoldable pub range_command : Bool → Bool → Text → RangeOptions → Option Command
range_command is_leader linearizable key o =
    if linearizable
    then (if is_leader
        then none
        else some (txn (record { compare = []; success = Op.range_op key o ∷ []; failure = [] })))
    else none

-- Nothing is proposed for a revision that the store has reached.
unfoldable pub seed_command : ℕ → Store → Option Command
seed_command revision s = if leb revision s.revision then none else some (seed revision)

unfoldable pub compact_command : ℕ → Command
compact_command revision = compact revision

-- `now` is the proposer's clock in milliseconds, and `index` the place in the log
unfoldable pub lease_grant_command : (now : ℕ) → (index : ℕ) → ℕ → ℕ → Command
lease_grant_command now index ttl id = lease_grant id index ttl (now + ttl * 1000)

unfoldable pub lease_revoke_command : ℕ → Command
lease_revoke_command id = lease_revoke id

-- A lease that the node does not know is kept alive for no time.
unfoldable pub lease_keep_alive_command : (now : ℕ) → ℕ → Store → Command
lease_keep_alive_command now id s =
    lease_keep_alive id (now + (elim (Map.get id s.leases) [ none ↦ 0 | some l ↦ l.ttl ]) * 1000)

-- the time that a lease has left, in seconds: `none` is -1, for a lease that is not there
pub record TimeToLive : Type 0 where
  pub ttl : Option ℕ
  pub granted_ttl : ℕ
  pub keys : List Text

-- `Math.round` goes up from a half; a time that is over rounds to 0 or less
unfoldable pub lease_time_to_live : (now : ℕ) → ℕ → Store → TimeToLive
lease_time_to_live now id s = elim (Map.get id s.leases) [
  | none ↦ record { ttl = none; granted_ttl = 0; keys = [] }
  | some l ↦ record {
    ttl = some ((l.expiry - now + 500) / 1000);
    granted_ttl = l.ttl;
    keys = l.keys;
  }
]

-- what `sweepLeases` proposes
unfoldable pub sweep_leases : Bool → (now : ℕ) → Store → List Command
unfolding lease_revoke_command
sweep_leases is_leader now s =
    if is_leader then map lease_revoke_command (expired_leases now s) else []
