-- ===== src/Mvcc/Machine.antt =====
-- The state machine as a whole: every command keeps the store valid, moves the revision forward by at
-- most what it may, and leaves the reads of earlier revisions alone.
use nodejs_k8s.Prelude.{
  nat_eq, text_eq, ℕ, ◌+◌, ◌≤◌, ◌<◌, max, Text, Option, none, some, List, [], ◌∷◌, ◌≡◌, inl, inr,
  refl, ap, ◌∙◌, arith, length, drop, ltb, leb, Bool-cases,
}
use nodejs_k8s.Prelude.Map
use nodejs_k8s.Mvcc.Types.{Codec, Entry, Event, Store, Result, ok, err, Lease, lease_not_found}
use nodejs_k8s.Mvcc.Read.{chain_of, scan, live, entry_at}
use nodejs_k8s.Mvcc.Watch.{publish}
use nodejs_k8s.Mvcc.Batch.{
  Op, Response, run_ops, commit, rollback, finish_writes, apply_writes, apply_txn,
}
use nodejs_k8s.Mvcc.Compact.{compacted_store, apply_compact}
use nodejs_k8s.Mvcc.Leases.{
  LeaseReply, delete_each, revoke, apply_lease_grant, apply_lease_revoke, apply_lease_keep_alive,
}
use nodejs_k8s.Mvcc.Apply.{
  Command, put, delete_range, txn, compact, lease_grant, lease_revoke, lease_keep_alive, seed, noop,
  unknown, apply, apply_seed, reply_with, Reply,
}
use nodejs_k8s.Mvcc.Grows.{Grows, run_ops-Grows}
use nodejs_k8s.Mvcc.Atomicity.{SameView, rollback-SameView}
use nodejs_k8s.Mvcc.History.{entry_at-Grows}
use nodejs_k8s.Mvcc.Valid.{IsValid, All-map}
use nodejs_k8s.Mvcc.Preserve.{
  commit-IsValid, apply_writes-IsValid, delete_each-Grows, IsValid-SameView,
}
use nodejs_k8s.Mvcc.Compaction.{entry_at-compacted_store, compacted_store-IsValid}

-- What a command owes to the reads of the store that it is applied to.
pub record Advances (s t : Store) : Type 0 where
  pub valid : IsValid t
  pub revision-le : s.revision ≤ t.revision
  pub compact_revision-le : s.compact_revision ≤ t.compact_revision
  pub history :
      (key : Text) (rev : ℕ)
      → 0 < rev
      → rev ≤ s.revision
      → t.compact_revision ≤ rev
      → entry_at t key rev ≡ entry_at s key rev

pub chain_of-commit :
    (rev : ℕ) (published : List Event) (t : Store) (k : Text)
    → chain_of (commit rev published t) k ≡ chain_of t k
unfolding commit publish chain_of
chain_of-commit rev [] t k = refl
chain_of-commit rev (e ∷ es) t k = refl

revision-commit :
    (rev : ℕ) (published : List Event) (t : Store)
    → t.revision ≤ rev
    → t.revision ≤ (commit rev published t).revision
unfolding commit publish
revision-commit rev [] t h = omega arith
revision-commit rev (e ∷ es) t h = h

compact_revision-commit :
    (rev : ℕ) (published : List Event) (t : Store)
    → (commit rev published t).compact_revision ≡ t.compact_revision
unfolding commit publish
compact_revision-commit rev [] t = refl
compact_revision-commit rev (e ∷ es) t = refl

pub entry_at-chain :
    (s t : Store) (key : Text) (rev : ℕ)
    → chain_of t key ≡ chain_of s key
    → entry_at t key rev ≡ entry_at s key rev
unfolding entry_at
entry_at-chain s t key rev h = ap (λ chain. live (scan rev none chain)) h

SameView-Advances : (s t : Store) → SameView t s → Map.IsDistinct t.keys → IsValid s → Advances s t
SameView-Advances s t same d v = record {
  valid = IsValid-SameView s t same d v;
  revision-le = omega (arith, same.revision);
  compact_revision-le = omega (arith, same.compact_revision);
  history = λ key rev pos le kept. entry_at-chain s t key rev (same.chains key);
}

-- a store that differs only in its leases
leases-Advances :
    (s : Store) (leases : Map.Map ℕ Lease) → IsValid s → Advances s (record s { leases = leases })
unfolding chain_of
leases-Advances s leases v =
    SameView-Advances s (record s { leases = leases })
      (record {
        chains = λ k. refl;
        events = refl;
        revision = refl;
        compact_revision = refl;
        watchers = refl;
        delivered = refl;
      })
      v.distinct v

commit-Advances :
    (s t : Store)
    → Grows (s.revision + 1) s t
    → IsValid s
    → Advances s (commit (s.revision + 1) (drop (length s.events) t.events) t)
commit-Advances s t g v = record {
  valid = commit-IsValid s t g v;
  revision-le = omega (
    arith,
    g.revision,
    revision-commit (s.revision + 1) (drop (length s.events) t.events) t
        (omega (arith, g.revision)),
  );
  compact_revision-le = omega (
    arith,
    g.compact_revision,
    compact_revision-commit (s.revision + 1) (drop (length s.events) t.events) t,
  );
  history = λ key rev pos le kept.
      entry_at-chain t (commit (s.revision + 1) (drop (length s.events) t.events) t) key rev
        (chain_of-commit (s.revision + 1) (drop (length s.events) t.events) t key)
      ∙ entry_at-Grows s t key rev g pos (omega arith);
}

apply_writes-Advances :
    (c : Codec) (ops : List Op) (s : Store) → IsValid s → Advances s (apply_writes c ops s).1
unfolding apply_writes finish_writes
apply_writes-Advances c ops s v =
    finish (run_ops c (s.revision + 1) ops s) (run_ops-Grows c (s.revision + 1) ops s)
      (apply_writes-IsValid c ops s v)
  where
    finish :
        (r : Result (List Response) × Store)
        → Grows (s.revision + 1) s r.1
        → IsValid (finish_writes (length s.events) (s.revision + 1) r).1
        → Advances s (finish_writes (length s.events) (s.revision + 1) r).1
    finish (ok rs, t) g after = commit-Advances s t g v
    finish (err e, t) g after =
        let same : SameView (rollback (length s.events) (s.revision + 1) t) s =
          rollback-SameView (s.revision + 1) s t g in
        SameView-Advances s (rollback (length s.events) (s.revision + 1) t) same after.distinct v

Advances-trans : {s t u : Store} → Advances s t → Advances t u → Advances s u
Advances-trans a b = record {
  valid = b.valid;
  revision-le = omega (arith, a.revision-le, b.revision-le);
  compact_revision-le = omega (arith, a.compact_revision-le, b.compact_revision-le);
  history = λ key rev pos le kept.
      b.history key rev pos (omega (arith, a.revision-le)) kept
      ∙ a.history key rev pos le (omega (arith, b.compact_revision-le));
}

revoke-Advances : (id : ℕ) (l : Lease) (s : Store) → IsValid s → Advances s (revoke id l s)
unfolding revoke
revoke-Advances id l s v =
    let without = record s { leases = Map.delete id s.leases } in
    let a : Advances s without = leases-Advances s (Map.delete id s.leases) v in
    Advances-trans a (
      commit-Advances without (delete_each (s.revision + 1) l.keys without)
        (delete_each-Grows (s.revision + 1) l.keys without) a.valid)

apply_lease_revoke-Advances :
    (id : ℕ) (s : Store) → IsValid s → Advances s (apply_lease_revoke id s).1
unfolding apply_lease_revoke
apply_lease_revoke-Advances id s v = found (Map.get id s.leases)
  where
    found :
        (o : Option Lease)
        → Advances s
            (let out : Result LeaseReply × Store = elim o [
              | none ↦ (err lease_not_found, s)
              | some l ↦ (
                ok (record { id = id; ttl = 0; revision = (revoke id l s).revision }),
                revoke id l s,
              )
            ] in
              out).1
    found none = leases-Advances s s.leases v
    found (some l) = revoke-Advances id l s v

apply_lease_keep_alive-Advances :
    (id expiry : ℕ) (s : Store) → IsValid s → Advances s (apply_lease_keep_alive id expiry s).1
unfolding apply_lease_keep_alive
apply_lease_keep_alive-Advances id expiry s v = found (Map.get id s.leases)
  where
    found :
        (o : Option Lease)
        → Advances s
            (let out : Result LeaseReply × Store = elim o [
              | none ↦ (err lease_not_found, s)
              | some l ↦ (
                ok (record { id = l.id; ttl = l.ttl; revision = s.revision }),
                record s { leases = Map.set id (record l { expiry = expiry }) s.leases },
              )
            ] in
              out).1
    found none = leases-Advances s s.leases v
    found (some l) = leases-Advances s (Map.set id (record l { expiry = expiry }) s.leases) v

apply_seed-Advances : (n : ℕ) (s : Store) → IsValid s → Advances s (apply_seed n s).1
unfolding apply_seed chain_of
apply_seed-Advances n s v = record {
  valid = record {
    chains = λ k. record {
      rises = (v.chains k).rises;
      positive = (v.chains k).positive;
      bounded =
          All-map (λ (e : Entry). e.rev ≤ s.revision) (λ (e : Entry). e.rev ≤ max s.revision n) _
            (λ e h. omega arith) (v.chains k).bounded;
    };
    distinct = v.distinct;
    log_rises = v.log_rises;
    log_bounded =
        All-map (λ (e : Event). e.rev ≤ s.revision) (λ (e : Event). e.rev ≤ max s.revision n)
          s.events (λ e h. omega arith) v.log_bounded;
    log_uncompacted = v.log_uncompacted;
    compact-le-revision = omega (arith, v.compact-le-revision);
  };
  revision-le = omega arith;
  compact_revision-le = omega arith;
  history = λ key rev pos le kept. entry_at-chain s (apply_seed n s).1 key rev refl;
}

compacted_store-Advances :
    (target : ℕ) (s : Store)
    → s.compact_revision ≤ target
    → target ≤ s.revision
    → IsValid s
    → Advances s (compacted_store target s)
unfolding compacted_store
compacted_store-Advances target s above below v = record {
  valid = compacted_store-IsValid target s below v;
  revision-le = omega arith;
  compact_revision-le = above;
  history = λ key rev pos le kept. entry_at-compacted_store target rev s key v (inr kept);
}

apply_compact-Advances :
    (target : ℕ) (s : Store) → IsValid s → Advances s (apply_compact target s).1
unfolding apply_compact
apply_compact-Advances target s v = elim (Bool-cases (ltb s.revision target)) [
  | inl future ↦ rw future (leases-Advances s s.leases v)
  | inr below ↦ rw below (elim (Bool-cases (leb target s.compact_revision)) [
    | inl old ↦ rw old (leases-Advances s s.leases v)
    | inr above ↦
        rw above
          (compacted_store-Advances target s (ground (arith, above)) (ground (arith, below)) v)
  ])
]

pub reply_with-store {ℓ} :
    {A : Type ℓ} (f : A → Reply) (r : Result A × Store) → (reply_with f r).1 ≡ r.1
unfolding reply_with
reply_with-store f (ok a, s) = refl
reply_with-store f (err e, s) = refl

-- Every command, whether it succeeds or throws, takes a valid store to a valid store; it moves neither
-- the revision nor the compaction revision backwards; and a read of a key at any revision that had
-- been reached, and that is not below the compaction revision afterwards, gives what it gave before.
pub apply-Advances :
    (c : Codec) (cmd : Command) (s : Store) → IsValid s → Advances s (apply c cmd s).1
unfolding apply apply_txn
apply-Advances c (put key value o prev_kv) s v = rw reply_with-store (apply_writes-Advances c _ s v)
apply-Advances c (delete_range key range_end prev_kv) s v =
    rw reply_with-store (apply_writes-Advances c _ s v)
apply-Advances c (txn t) s v = rw reply_with-store (apply_writes-Advances c _ s v)
apply-Advances c (compact target) s v = rw reply_with-store (apply_compact-Advances target s v)
apply-Advances c (lease_grant id index ttl expiry) s v =
    rw reply_with-store (unfold apply_lease_grant in leases-Advances s _ v)
apply-Advances c (lease_revoke id) s v = rw reply_with-store (apply_lease_revoke-Advances id s v)
apply-Advances c (lease_keep_alive id expiry) s v =
    rw reply_with-store (apply_lease_keep_alive-Advances id expiry s v)
apply-Advances c (seed n) s v = apply_seed-Advances n s v
apply-Advances c noop s v = leases-Advances s s.leases v
apply-Advances c unknown s v = leases-Advances s s.leases v
