-- ===== src/Mvcc/Revocation.antt =====
-- Revoking a lease deletes the keys attached to it.
use nodejs_k8s.Prelude.{
  nat_eq, text_eq, ℕ, ◌+◌, Text, none, some, ◌≡◌, ◌∙◌, ap, refl, if◌then◌else◌, length, drop,
}
use nodejs_k8s.Prelude.Map
use nodejs_k8s.Mvcc.Types.{Lease, Store}
use nodejs_k8s.Mvcc.Read.{chain_of, entry_at}
use nodejs_k8s.Mvcc.Leases.{delete_each, revoke, apply_lease_revoke}
use nodejs_k8s.Mvcc.Machine.{entry_at-chain, chain_of-commit}
use nodejs_k8s.Mvcc.Deletion.{member, entry_at-delete_each}

module _ (id : ℕ) (l : Lease) (s : Store) where
  entry_at-revoke :
      (k : Text) → entry_at (revoke id l s) k 0 ≡ (if member k l.keys then none else entry_at s k 0)
  unfolding revoke
  entry_at-revoke k =
      let without = record s { leases = Map.delete id s.leases } in
      let deleted = delete_each (s.revision + 1) l.keys without in
      entry_at-chain deleted _ k 0
        (chain_of-commit (s.revision + 1) (drop (length s.events) deleted.events) deleted k)
      ∙ entry_at-delete_each (s.revision + 1) l.keys without k
      ∙ ap (λ e. if member k l.keys then none else e)
          (entry_at-chain s without k 0 (unfold chain_of in refl))

-- Revoking a lease that is there leaves none of its keys live, and changes the live entry of no other
-- key.
entry_at-apply_lease_revoke :
    (id : ℕ) (l : Lease) (s : Store) (k : Text)
    → Map.get id s.leases ≡ some l
    → entry_at (apply_lease_revoke id s).1 k 0 ≡ (if member k l.keys then none else entry_at s k 0)
unfolding apply_lease_revoke
entry_at-apply_lease_revoke id l s k h = rw (h, apply_lease_revoke) (entry_at-revoke id l s k)
