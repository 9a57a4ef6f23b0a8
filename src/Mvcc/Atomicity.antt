-- ===== src/Mvcc/Atomicity.antt =====
-- A batch that throws leaves nothing to read: `rollback` undoes what `applyWrites` had written.
use nodejs_k8s.Prelude.{
  ℕ, ◌+◌, Text, List, ◌≡◌, refl, ap, ◌∙◌, length, take, drop, sym, drop-length-append,
  take-length-append,
}
use nodejs_k8s.Mvcc.Types.{Codec, Store, StoreError, Result, ok, err}
use nodejs_k8s.Mvcc.Read.{chain_of}
use nodejs_k8s.Mvcc.Batch.{Op, Response, run_ops, rollback, finish_writes, apply_writes}
use nodejs_k8s.Mvcc.Chains.{chain_of-lookup, lookup_chain-pop_events, count_key}
use nodejs_k8s.Mvcc.Grows.{Grows, run_ops-Grows}

-- Nothing that a read, a watch or a listener can see differs: chains, events, revisions, watchers and
-- deliveries. Lease bookkeeping is left out.
pub record SameView (s t : Store) : Type 0 where
  pub chains : (k : Text) → chain_of s k ≡ chain_of t k
  pub events : s.events ≡ t.events
  pub revision : s.revision ≡ t.revision
  pub compact_revision : s.compact_revision ≡ t.compact_revision
  pub watchers : s.watchers ≡ t.watchers
  pub delivered : s.delivered ≡ t.delivered

pub rollback-SameView :
    (rev : ℕ) (s t : Store) → Grows rev s t → SameView (rollback (length s.events) rev t) s
unfolding rollback
rollback-SameView rev s t g =
    let log : drop (length s.events) t.events ≡ g.news =
      ap (drop (length s.events)) g.events ∙ drop-length-append s.events g.news in
    record {
      chains = λ k.
          chain_of-lookup (rollback (length s.events) rev t) k
          ∙ lookup_chain-pop_events rev (drop (length s.events) t.events) t.keys k (chain_of s k)
              (g.added k) ((sym (chain_of-lookup t k)) ∙ g.chains k) (g.added_stamped k)
              (g.balanced k ∙ ap (count_key k) (sym log));
      events = ap (take (length s.events)) g.events ∙ take-length-append s.events g.news;
      revision = g.revision;
      compact_revision = g.compact_revision;
      watchers = g.watchers;
      delivered = g.delivered;
    }

module _ (mark rev : ℕ) where
  finish_writes-err :
      (r : Result (List Response) × Store) (e : StoreError)
      → (finish_writes mark rev r).0 ≡ err e
      → (finish_writes mark rev r).1 ≡ rollback mark rev r.1
  unfolding finish_writes
  finish_writes-err (err e', s) e h = refl
  finish_writes-err (ok rs, s) e h = cc

-- If `applyWrites` throws, whatever operation of the batch it was that threw, then every chain, the
-- event log, the revision and the compaction revision, the watchers and the calls of listeners are
-- what they were before the batch.
pub apply_writes_atomic :
    (c : Codec) (ops : List Op) (s : Store) {e : StoreError}
    → (apply_writes c ops s).0 ≡ err e
    → SameView (apply_writes c ops s).1 s
unfolding apply_writes
apply_writes_atomic c ops s {e} h =
    rw (finish_writes-err (length s.events) (s.revision + 1) (run_ops c (s.revision + 1) ops s) e h)
      (rollback-SameView (s.revision + 1) s (run_ops c (s.revision + 1) ops s).1
        (run_ops-Grows c (s.revision + 1) ops s))
