-- ===== src/Mvcc/Leases.antt =====
-- Leases: grant, revoke, keep-alive and expiry of store/mvcc.js.
use nodejs_k8s.Prelude.{
  ℕ, Text, ◌+◌, not, ◌&&◌, none, some, List, [], ◌∷◌, map, nat_eq, leb, nat_beq, filter, drop,
  length, if◌then◌else◌,
}
use nodejs_k8s.Prelude.Map
use nodejs_k8s.Mvcc.Types.{Lease, Store, Result, ok, err, lease_not_found}
use nodejs_k8s.Mvcc.Write.{delete_at}
use nodejs_k8s.Mvcc.Batch.{commit}

-- the replies to the lease commands; a revocation has no `ttl`, and 0 stands in its place
pub record LeaseReply : Type 0 where
  pub id : ℕ
  pub ttl : ℕ
  pub revision : ℕ

-- `Number(cmd.id) || Number(cmd.index) || (this.leases.size + 1)`
unfoldable pub lease_id : ℕ → ℕ → Store → ℕ
lease_id id index s =
    if nat_beq id 0 then (if nat_beq index 0 then length s.leases + 1 else index) else id

unfoldable pub apply_lease_grant : ℕ → ℕ → ℕ → ℕ → Store → Result LeaseReply × Store
apply_lease_grant id index ttl expiry s =
    let id' = lease_id id index s in
    (
      ok (record { id = id'; ttl = ttl; revision = s.revision }),
      record s {
        leases = Map.set id' (record { id = id'; ttl = ttl; expiry = expiry; keys = [] }) s.leases;
      },
    )

-- `for (const key of keys) this.deleteAt(rev, key)`
unfoldable pub delete_each : ℕ → List Text → Store → Store
delete_each rev [] s = s
delete_each rev (key ∷ keys) s = delete_each rev keys (delete_at rev key [] s).1

unfoldable pub revoke : ℕ → Lease → Store → Store
revoke id l s =
    let s' = record s { leases = Map.delete id s.leases } in
    let s'' = delete_each (s.revision + 1) l.keys s' in
    commit (s.revision + 1) (drop (length s.events) s''.events) s''

unfoldable pub apply_lease_revoke : ℕ → Store → Result LeaseReply × Store
apply_lease_revoke id s = elim (Map.get id s.leases) [
  | none ↦ (err lease_not_found, s)
  | some l ↦ (ok (record { id = id; ttl = 0; revision = (revoke id l s).revision }), revoke id l s)
]

unfoldable pub apply_lease_keep_alive : ℕ → ℕ → Store → Result LeaseReply × Store
apply_lease_keep_alive id expiry s = elim (Map.get id s.leases) [
  | none ↦ (err lease_not_found, s)
  | some l ↦ (
    ok (record { id = l.id; ttl = l.ttl; revision = s.revision }),
    record s { leases = Map.set id (record l { expiry = expiry }) s.leases },
  )
]

-- `expiredLeases`
unfoldable pub expired_leases : ℕ → Store → List ℕ
expired_leases now s =
    map (λ (l : Lease). l.id)
      (filter (λ (l : Lease). not (nat_beq l.expiry 0) && leb l.expiry now)
        (map (λ (p : ℕ × Lease). p.1) s.leases))
