-- ===== src/Gateway/Calls.antt =====
-- The calls of class `Gateway` in store/gateway.js, from the decoded body to the answer. The store is what
-- the commands of the log come to, the call's own included; a node that leads has applied them all, and
-- one that follows answers reads, headers and leases from what it has applied itself. An `int64` is the number that is printed, and
-- `from_text` gives the bytes of a text.
use nodejs_k8s.Prelude.{
  ℕ, ◌||◌, Text, Bool, false, not, Option, none, some, List, [], ◌∷◌, map, nat_beq, if◌then◌else◌,
}
use nodejs_k8s.Mvcc.Types.{Bytes, Codec, Kv, Store, Result, ok, err, code}
use nodejs_k8s.Mvcc.Read.{RangeReply, range}
use nodejs_k8s.Mvcc.Batch.{Op, Response, put_response, delete_response, range_response}
use nodejs_k8s.Mvcc.Apply.{Command, Reply, wrote, transacted, lease_reply, txn, apply}
use nodejs_k8s.Node.Commands.{
  put_command, put_reply, delete_command, delete_reply, range_command, compact_command,
  lease_grant_command, lease_revoke_command, lease_keep_alive_command, TimeToLive,
  lease_time_to_live,
}
use nodejs_k8s.Gateway.Decode.{
  or_default, bytes, b64, RangeBody, range_args, DeleteBody, OpBody, decode_op, CompareBody,
  decode_compare,
}

-- `header`, whose ids are constant
pub record Header : Type 0 where
  pub revision : ℕ
  pub raft_term : ℕ

pub record KvReply : Type 0 where
  pub key : Text
  pub create_revision : ℕ
  pub mod_revision : ℕ
  pub version : ℕ
  pub value : Text
  pub lease : ℕ

pub data ResponseReply : Type 0 where
  ranged : List KvReply → ℕ → Bool → ResponseReply
  deleted : ℕ → List (Option KvReply) → ResponseReply
  written : Option KvReply → ResponseReply

pub data Answer : Type 0 where
  responded : Header → ResponseReply → Answer
  txn_done : Header → Bool → List ResponseReply → Answer
  done : Header → Answer
  leased : Header → ℕ → ℕ → Answer
  time_left : Header → ℕ → TimeToLive → Answer
  failed : (status code : ℕ) → Answer

-- the body of a put by itself
pub record PutCall : Type 0 where
  pub key : Option Text
  pub value : Option Text
  pub lease : Option ℕ
  pub prev_kv : Option Bool
  pub ignore_value : Option Bool
  pub ignore_lease : Option Bool

-- what comes in; a body that is no JSON, and a path that is none of these
pub data Call : Type 0 where
  range_call : RangeBody → (serializable : Option Bool) → Call
  put_call : PutCall → Call
  delete_call : DeleteBody → Call
  txn_call : List CompareBody → List OpBody → List OpBody → Call
  compact_call : Option ℕ → Call
  grant_call : (ttl id : Option ℕ) → Call
  revoke_call keep_alive_call time_to_live_call : (id : Option ℕ) → Call
  no_json no_path : Call

-- where the node stands: its clock, its term, the log's next index, whether it leads, and what it has
-- applied itself if it follows, when the log comes to a store
pub record Site : Type 0 where
  pub now : ℕ
  pub term : ℕ
  pub index : ℕ
  pub is_leader : Bool
  pub applied : Store → Store

-- `status || (code === 11 || code === 13 ? 400 : 500)`, 0 being no status
unfoldable pub fail : (status code : ℕ) → Answer
fail status code =
    if nat_beq status 0
    then failed (if nat_beq code 11 || nat_beq code 13 then 400 else 500) code
    else failed status code

decode_ops : Codec → List OpBody → Option (List Op)
decode_ops c [] = some []
decode_ops c (body ∷ bodies) = elim (decode_op c body) [
  | none ↦ none
  | some op ↦ elim (decode_ops c bodies) [ none ↦ none | some ops ↦ some (op ∷ ops) ]
]

module _ (c : Codec) (from_text : Text → Bytes) where
  unfoldable pub encode_kv : Kv → KvReply
  encode_kv kv = record {
    key = c.to_base64 (from_text kv.key);
    create_revision = kv.create_revision;
    mod_revision = kv.mod_revision;
    version = kv.version;
    value = c.to_base64 kv.value;
    lease = kv.lease;
  }

  unfoldable pub encode_kv? : Option Kv → Option KvReply
  unfolding encode_kv
  encode_kv? none = none
  encode_kv? (some kv) = some (encode_kv kv)

  unfoldable pub encode_range : RangeReply → ResponseReply
  unfolding encode_kv
  encode_range r = ranged (map encode_kv r.kvs) r.count r.more

  unfoldable pub encode_response : Response → ResponseReply
  unfolding encode_kv? encode_range
  encode_response (range_response r) = encode_range r
  encode_response (delete_response n kvs) = deleted n (map encode_kv? kvs)
  encode_response (put_response kv) = written (encode_kv? kv)

  module _ (site : Site) where
    unfoldable pub header : Store → Header
    header s = record { revision = s.revision; raft_term = site.term }

    -- the node's own store
    unfoldable pub own : Store → Store
    own s = if site.is_leader then s else site.applied s

    -- a command whose answer is made into a call's, or whose error is
    unfoldable pub execute : (Reply → Store → Answer) → Command → Store → Answer × Store
    unfolding fail own
    execute answer command s =
        let (result, t) = apply c command s in
        (elim result [ ok r ↦ answer r (own t) | err e ↦ fail 0 (code e) ], t)

    -- the first response of a transaction that reads
    answer_read : Reply → Store → Answer
    answer_read (transacted succeeded w) t = elim w.responses [
      | [] ↦ fail 0 2
      | r ∷ rs ↦ responded (header t) (encode_response r)
    ]
    answer_read _ t = fail 0 2

    answer_local : Result RangeReply → Store → Answer
    answer_local (ok r) s = responded (header s) (encode_range r)
    answer_local (err e) s = fail 0 (code e)

    unfoldable pub range_of : Bool → RangeBody → Store → Answer × Store
    unfolding answer_read answer_local header execute encode_range own
    range_of serializable body s =
        elim (range_command site.is_leader (not serializable) (b64 c body.key)
          (range_args c body)) [
            | some command ↦ execute answer_read command s
            | none ↦
                let mine = own s in
                (answer_local (range c mine (b64 c body.key) (range_args c body)) mine, s)
          ]

    answer_put : Reply → Store → Answer
    answer_put (wrote w) t = responded (header t) (written (encode_kv? (put_reply w).prev_kv))
    answer_put _ t = done (header t)

    unfoldable pub put_of : PutCall → Store → Answer × Store
    unfolding execute answer_put header encode_kv?
    put_of body s =
        execute answer_put
          (put_command c (b64 c body.key) (bytes c body.value)
            (record {
              lease = or_default 0 body.lease;
              ignore_value = or_default false body.ignore_value;
              ignore_lease = or_default false body.ignore_lease;
            })
            (or_default false body.prev_kv))
          s

    answer_delete : Reply → Store → Answer
    answer_delete (wrote w) t =
        responded (header t)
          (deleted (delete_reply w).deleted (map encode_kv? (delete_reply w).prev_kvs))
    answer_delete _ t = done (header t)

    answer_txn : Reply → Store → Answer
    answer_txn (transacted succeeded w) t =
        txn_done (header t) succeeded (map encode_response w.responses)
    answer_txn _ t = done (header t)

    -- An operation of no known kind is the error with code 3, and nothing is executed.
    unfoldable pub txn_of_call :
        List CompareBody → List OpBody → List OpBody → Store → Answer × Store
    unfolding execute answer_txn header encode_response decode_ops fail
    txn_of_call compares success failure s = elim (decode_ops c success) [
      | none ↦ (fail 0 3, s)
      | some yes_ops ↦ elim (decode_ops c failure) [
        | none ↦ (fail 0 3, s)
        | some no_ops ↦
            execute answer_txn
              (txn (record {
                compare = map (decode_compare c) compares;
                success = yes_ops;
                failure = no_ops;
              }))
              s
      ]
    ]

    answer_done : Reply → Store → Answer
    answer_done r t = done (header t)

    answer_lease : Reply → Store → Answer
    answer_lease (lease_reply l) t = leased (header t) l.id l.ttl
    answer_lease _ t = done (header t)

    -- `route`
    unfoldable pub route : Call → Store → Answer × Store
    unfolding range_of put_of txn_of_call execute answer_delete answer_done answer_lease header fail
        encode_kv? own
    route (range_call body serializable) s = range_of (or_default false serializable) body s
    route (put_call body) s = put_of body s
    route (delete_call body) s =
        execute answer_delete
          (delete_command (b64 c body.key) (b64 c body.range_end) (or_default false body.prev_kv)) s
    route (txn_call compares success failure) s = txn_of_call compares success failure s
    route (compact_call revision) s =
        execute answer_done (compact_command (or_default 0 revision)) s
    route (grant_call ttl id) s =
        execute answer_lease
          (lease_grant_command site.now site.index (or_default 0 ttl) (or_default 0 id)) s
    route (revoke_call id) s = execute answer_done (lease_revoke_command (or_default 0 id)) s
    route (keep_alive_call id) s =
        execute answer_lease (lease_keep_alive_command site.now (or_default 0 id) (own s)) s
    route (time_to_live_call id) s = (
      time_left (header (own s)) (or_default 0 id)
          (lease_time_to_live site.now (or_default 0 id) (own s)),
      s,
    )
    route no_json s = (fail 400 3, s)
    route no_path s = (failed 404 5, s)
