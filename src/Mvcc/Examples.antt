-- ===== src/Mvcc/Examples.antt =====
-- The theorems about the keyspace at concrete stores, and tests of its operations.
use nodejs_k8s.Prelude.{
  nat_eq, text_eq, every, List, inr, ◌+◌, Text, true, false, some, [], ◌∷◌, ◌≡◌, refl, arith,
}
use nodejs_k8s.Prelude.Map
use nodejs_k8s.Mvcc.Types.{Codec, IsCodec, Lease, Store, ok, err, lease_not_found}
use nodejs_k8s.Mvcc.Read.{entry_at, chain_of, scan, live}
use nodejs_k8s.Mvcc.Write.{
  new_entry, put_event, put_at, put_entry, attach, detach, detach_previous, set_add,
}
use nodejs_k8s.Mvcc.Compare.{buffer, from_command, compare}
use nodejs_k8s.Mvcc.Batch.{Op, succeeds, run_ops, run_op, apply_writes, apply_txn, commit}
use nodejs_k8s.Mvcc.Watch.{publish}
use nodejs_k8s.Mvcc.Leases.{apply_lease_grant, lease_id}
use nodejs_k8s.Mvcc.Compact.{compacted_store}
use nodejs_k8s.Mvcc.Apply.{put, compact, lease_grant, apply}
use nodejs_k8s.Mvcc.Snapshot.{snapshot, restore}
use nodejs_k8s.Mvcc.Atomicity.{SameView, apply_writes_atomic}
use nodejs_k8s.Mvcc.Valid.{IsValid}
use nodejs_k8s.Mvcc.Machine.{Advances, apply-Advances}
use nodejs_k8s.Mvcc.Compaction.{entry_at-compacted_store}
use nodejs_k8s.Mvcc.Swap.{swap, swapped, no_options, mod_revision_of, swap-wins, swap-race}
use nodejs_k8s.Mvcc.Watches.{Tells, apply_writes-Tells}
use nodejs_k8s.Mvcc.Leak.{Attached, with_lease, rollback_leaks_lease}
use nodejs_k8s.Mvcc.Snapshot.RoundTrip.{IsKeyed, restore-snapshot}

-- base64 replaced by the identity
abbrev plain : Codec
plain = record { to_base64 = λ b. b; from_base64 = λ t. t; to_text = λ b. b }

plain-IsCodec : IsCodec plain
plain-IsCodec = record { from-to_base64 = λ b. refl }

abbrev empty : Store
empty = record {
  revision = 0;
  compact_revision = 0;
  keys = [];
  events = [];
  leases = [];
  watchers = [];
  next_watch_id = 1;
  delivered = [];
}

empty-IsValid : IsValid empty
unfolding chain_of Map.get
empty-IsValid = record {
  chains = λ k. record { rises = tt; positive = tt; bounded = tt };
  distinct = tt;
  log_rises = tt;
  log_bounded = tt;
  log_uncompacted = tt;
  compact-le-revision = omega arith;
}

abbrev key_a : Text
key_a = b'a' ∷ []

abbrev key_b : Text
key_b = b'b' ∷ []

abbrev granted : Store
granted = (apply plain (lease_grant 7 0 60 1000) empty).1

abbrev once : Store
once = (apply plain (put key_a (buffer (1 ∷ [])) (with_lease 7) false) granted).1

abbrev twice : Store
twice = (apply plain (put key_b (buffer (2 ∷ [])) no_options false) once).1

granted-IsValid : IsValid granted
granted-IsValid = (apply-Advances plain (lease_grant 7 0 60 1000) empty empty-IsValid).valid

once-IsValid : IsValid once
once-IsValid =
    (apply-Advances plain (put key_a (buffer (1 ∷ [])) (with_lease 7) false) granted
      granted-IsValid).valid

twice-IsValid : IsValid twice
twice-IsValid =
    (apply-Advances plain (put key_b (buffer (2 ∷ [])) no_options false) once once-IsValid).valid

-- To unfold this test is to unfold all that the tests below compute with.
revision-twice : twice.revision ≡ 2
unfolding apply apply_writes run_ops run_op put_at entry_at chain_of scan live new_entry put_entry
    put_event attach detach_previous commit publish apply_lease_grant lease_id Map.get Map.set
    Map.has from_command apply_txn succeeds compare every detach
revision-twice = refl

apply-Advances_example : Advances twice (apply plain (compact 2) twice).1
apply-Advances_example = apply-Advances plain (compact 2) twice twice-IsValid

abbrev half_bad : List Op
half_bad =
    Op.put key_a (buffer (3 ∷ [])) no_options false
    ∷ Op.put key_b (buffer (4 ∷ [])) (with_lease 9) false
    ∷ []

half_bad_throws : (apply_writes plain half_bad twice).0 ≡ err lease_not_found
unfolding revision-twice
half_bad_throws = refl

apply_writes_atomic_example : SameView (apply_writes plain half_bad twice).1 twice
apply_writes_atomic_example = apply_writes_atomic plain half_bad twice half_bad_throws

swap-wins_example :
    let r = apply_txn plain (swap key_a (mod_revision_of twice key_a) (buffer (5 ∷ []))) twice in
    (r.0 ≡ true)
    × (entry_at r.1.1 key_a 0
        ≡ some (swapped (twice.revision + 1) (entry_at twice key_a 0) (5 ∷ [])))
unfolding from_command
swap-wins_example = swap-wins plain twice key_a (buffer (5 ∷ []))

fresh : (apply_txn plain (swap key_a 1 (buffer (5 ∷ []))) twice).0 ≡ true
unfolding revision-twice
fresh = refl

swap-race_example :
    let t = (apply_txn plain (swap key_a 1 (buffer (5 ∷ []))) twice).1.1 in
    apply_txn plain (swap key_a 1 (buffer (6 ∷ []))) t
    ≡ (false, (ok (record { revision = t.revision; responses = [] }), t))
swap-race_example =
    swap-race plain twice key_a 1 (buffer (5 ∷ [])) (buffer (6 ∷ [])) twice-IsValid fresh

has_b : Map.has key_b twice.keys ≡ true
unfolding revision-twice
has_b = refl

abbrev lease_7 : Lease
lease_7 = record { id = 7; ttl = 60; expiry = 1000; keys = key_a ∷ [] }

has_7 : Map.get 7 twice.leases ≡ some lease_7
unfolding revision-twice set_add
has_7 = refl

entry_at-compacted_store_example :
    entry_at (compacted_store 1 twice) key_a 2 ≡ entry_at twice key_a 2
entry_at-compacted_store_example =
    entry_at-compacted_store 1 2 twice key_a twice-IsValid (inr (omega arith))

apply_writes-Tells_example : Tells twice (apply_writes plain half_bad twice).1
apply_writes-Tells_example = apply_writes-Tells plain half_bad twice

leased : Map.has 7 twice.leases ≡ true
unfolding revision-twice
leased = refl

not_leased : Map.has 9 twice.leases ≡ false
unfolding revision-twice
not_leased = refl

rollback_leaks_lease_example :
    let r =
      apply_writes plain
        (Op.put key_b (buffer []) (with_lease 7) false
          ∷ Op.put key_a (buffer []) (with_lease 9) false
          ∷ [])
        twice in
    (r.0 ≡ err lease_not_found)
    × (entry_at r.1 key_b 0 ≡ entry_at twice key_b 0)
    × Attached 7 key_b r.1.leases
rollback_leaks_lease_example =
    rollback_leaks_lease plain twice 7 9 key_b key_a (buffer []) (buffer []) (omega arith)
      (omega arith) leased not_leased

twice_leases : Map.IsDistinct twice.leases × IsKeyed twice.leases
unfolding revision-twice
twice_leases = ((refl, tt), (refl, tt))

restore-snapshot_example : restore plain (snapshot plain twice) empty ≡ record empty {
  revision = twice.revision;
  compact_revision = twice.compact_revision;
  keys = twice.keys;
  events = twice.events;
  leases = twice.leases;
}
restore-snapshot_example =
    restore-snapshot plain plain-IsCodec twice empty twice-IsValid.distinct twice_leases.0
      twice_leases.1
