-- ===== src/Mvcc/Apply.antt =====
-- The dispatch of committed commands: `apply` and `applySeed` of store/mvcc.js.
use nodejs_k8s.Prelude.{ℕ, Text, Bool, max, [], ◌∷◌}
use nodejs_k8s.Mvcc.Types.{Codec, Store, Result, ok, err, unknown_operation}
use nodejs_k8s.Mvcc.Write.{PutOptions}
use nodejs_k8s.Mvcc.Compare.{CommandValue}
use nodejs_k8s.Mvcc.Batch.{Op, WriteReply, apply_writes, Txn, apply_txn}
use nodejs_k8s.Mvcc.Compact.{Compaction, apply_compact}
use nodejs_k8s.Mvcc.Leases.{
  LeaseReply, apply_lease_grant, apply_lease_revoke, apply_lease_keep_alive,
}

-- `lease_grant id index ttl expiry`: the proposer stamps the command with its log index
pub data Command : Type 0 where
  put : Text → CommandValue → PutOptions → Bool → Command
  delete_range : Text → Text → Bool → Command
  txn : Txn → Command
  compact : ℕ → Command
  lease_grant : ℕ → ℕ → ℕ → ℕ → Command
  lease_revoke : ℕ → Command
  lease_keep_alive : ℕ → ℕ → Command
  seed : ℕ → Command
  noop unknown : Command

pub data Reply : Type 0 where
  wrote : WriteReply → Reply
  transacted : Bool → WriteReply → Reply
  compaction : Compaction → Reply
  lease_reply : LeaseReply → Reply
  at_revision : ℕ → Reply

unfoldable pub reply_with {ℓ} : {A : Type ℓ} → (A → Reply) → Result A × Store → Result Reply × Store
reply_with f (ok r, s) = (ok (f r), s)
reply_with f (err e, s) = (err e, s)

unfoldable pub apply_seed : ℕ → Store → Result Reply × Store
apply_seed revision s =
    let now = max s.revision revision in (ok (at_revision now), record s { revision = now })

unfoldable pub apply : Codec → Command → Store → Result Reply × Store
unfolding reply_with
apply c (put key value o prev_kv) s =
    reply_with wrote (apply_writes c (Op.put key value o prev_kv ∷ []) s)
apply c (delete_range key range_end prev_kv) s =
    reply_with wrote (apply_writes c (Op.delete_range key range_end prev_kv ∷ []) s)
apply c (txn t) s = let (succeeded, r) = apply_txn c t s in reply_with (transacted succeeded) r
apply c (compact target) s = reply_with compaction (apply_compact target s)
apply c (lease_grant id index ttl expiry) s =
    reply_with lease_reply (apply_lease_grant id index ttl expiry s)
apply c (lease_revoke id) s = reply_with lease_reply (apply_lease_revoke id s)
apply c (lease_keep_alive id expiry) s = reply_with lease_reply (apply_lease_keep_alive id expiry s)
apply c (seed revision) s = apply_seed revision s
apply c noop s = (ok (at_revision s.revision), s)
apply c unknown s = (err unknown_operation, s)
