-- ===== src/Mvcc/Preserve.antt =====
-- Batches keep a store valid, whether they commit or are rolled back.
use nodejs_k8s.Prelude.{
  nat_eq, ℕ, ◌+◌, ◌≤◌, ◌<◌, Text, List, [], ◌∷◌, ◌++◌, ◌≡◌, refl, sym, ap, ◌∙◌, All, arith, text_eq,
  length, All-append, append-nil, drop-length-append, drop, ◌⊎◌, inl, inr, ◌≢◌,
}
use mathlib.Core.Path.{subst, subst₂}
use nodejs_k8s.Prelude.Map
use nodejs_k8s.Prelude.Map.{Map}
use nodejs_k8s.Mvcc.Types.{Codec, Entry, Event, Store, Result, ok, err, Delivery}
use nodejs_k8s.Mvcc.Read.{chain_of}
use nodejs_k8s.Mvcc.Watch.{publish, all_deliveries}
use nodejs_k8s.Mvcc.Batch.{Op, Response, run_ops, commit, rollback, finish_writes, apply_writes}
use nodejs_k8s.Mvcc.Leases.{delete_each}
use nodejs_k8s.Mvcc.Write.{delete_at}
use nodejs_k8s.Mvcc.Chains.{count_key, IsDistinct-pop_events}
use nodejs_k8s.Mvcc.Grows.{Grows, Grows-refl, Grows-trans, run_ops-Grows, delete_at-Grows}
use nodejs_k8s.Mvcc.Atomicity.{SameView, rollback-SameView}
use nodejs_k8s.Mvcc.Valid.{
  IsChain, IsChain-append, IsValid, All-map, Rises, Rises-append, event_rev,
}

no_entries : (xs : List Entry) → length xs ≡ 0 → xs ≡ []
no_entries [] h = refl
no_entries (x ∷ xs) h = absurd (omega arith)

-- a batch without events has left the chains as they were
chain_of-quiet :
    {rev : ℕ} (s t : Store) (g : Grows rev s t)
    → g.news ≡ []
    → (k : Text) → chain_of t k ≡ chain_of s k
chain_of-quiet s t g quiet k =
    g.chains k
    ∙ ap (λ xs. chain_of s k ++ xs) (no_entries (g.added k) (g.balanced k ∙ ap (count_key k) quiet))
    ∙ append-nil (chain_of s k)

-- The log of a store that has grown, behind the mark.
drop-Grows : {rev : ℕ} (s t : Store) (g : Grows rev s t) → drop (length s.events) t.events ≡ g.news
drop-Grows s t g = ap (drop (length s.events)) g.events ∙ drop-length-append s.events g.news

module _ (s t : Store) (g : Grows (s.revision + 1) s t) (v : IsValid s) where
  Grows-chains : (k : Text) → IsChain (s.revision + 1) (chain_of t k)
  Grows-chains k =
      subst (IsChain (s.revision + 1)) (sym (g.chains k))
        (IsChain-append s.revision (chain_of s k) (g.added k) (v.chains k) (g.added_stamped k))

  Grows-IsValid :
      (ds : List Delivery) → IsValid (record t { revision = s.revision + 1; delivered = ds })
  unfolding chain_of
  Grows-IsValid ds = record {
    chains = Grows-chains;
    distinct = g.distinct v.distinct;
    log_rises = subst (Rises event_rev) (sym g.events) (
        Rises-append event_rev s.revision s.events g.news v.log_rises v.log_bounded g.news_stamped);
    log_bounded = subst (All (λ (e : Event). e.rev ≤ s.revision + 1)) (sym g.events) (
        All-append (λ (e : Event). e.rev ≤ s.revision + 1) s.events g.news
          (All-map (λ (e : Event). e.rev ≤ s.revision) (λ (e : Event). e.rev ≤ s.revision + 1)
            s.events (λ e h. omega arith) v.log_bounded)
          (All-map (λ (e : Event). e.rev ≡ s.revision + 1) (λ (e : Event). e.rev ≤ s.revision + 1)
            g.news (λ e h. omega arith) g.news_stamped));
    log_uncompacted = subst (All (λ (e : Event). t.compact_revision < e.rev)) (sym g.events) (
        All-append (λ (e : Event). t.compact_revision < e.rev) s.events g.news
          (All-map (λ (e : Event). s.compact_revision < e.rev)
            (λ (e : Event). t.compact_revision < e.rev) s.events
            (λ e h. omega (arith, g.compact_revision)) v.log_uncompacted)
          (All-map (λ (e : Event). e.rev ≡ s.revision + 1)
            (λ (e : Event). t.compact_revision < e.rev) g.news
            (λ e h. omega (arith, g.compact_revision, v.compact-le-revision)) g.news_stamped));
    compact-le-revision = omega (arith, g.compact_revision, v.compact-le-revision);
  }

-- Validity reads no more of a store than `SameView` compares, and the keys' distinctness.
pub IsValid-SameView : (s t : Store) → SameView t s → Map.IsDistinct t.keys → IsValid s → IsValid t
IsValid-SameView s t same d v = record {
  chains = λ k. subst₂ IsChain (sym same.revision) (sym (same.chains k)) (v.chains k);
  distinct = d;
  log_rises = subst (Rises event_rev) (sym same.events) v.log_rises;
  log_bounded =
      subst₂ (λ n. All (λ (e : Event). e.rev ≤ n)) (sym same.revision) (sym same.events)
        v.log_bounded;
  log_uncompacted =
      subst₂ (λ n. All (λ (e : Event). n < e.rev)) (sym same.compact_revision) (sym same.events)
        v.log_uncompacted;
  compact-le-revision = omega (arith, same.revision, same.compact_revision, v.compact-le-revision);
}

pub quiet-SameView : {rev : ℕ} (s t : Store) (g : Grows rev s t) → g.news ≡ [] → SameView t s
quiet-SameView s t g quiet = record {
  chains = chain_of-quiet s t g quiet;
  events = g.events ∙ ap (λ xs. s.events ++ xs) quiet ∙ append-nil s.events;
  revision = g.revision;
  compact_revision = g.compact_revision;
  watchers = g.watchers;
  delivered = g.delivered;
}

rollback-IsDistinct :
    {rev : ℕ} (s t : Store)
    → Grows rev s t
    → Map.IsDistinct s.keys
    → Map.IsDistinct (rollback (length s.events) rev t).keys
unfolding rollback
rollback-IsDistinct {rev} s t g d =
    IsDistinct-pop_events rev (drop (length s.events) t.events) t.keys (g.distinct d)

-- What `commit` does with the events of a batch.
module _ (s t : Store) (g : Grows (s.revision + 1) s t) where
  pub commit-cases :
      ((commit (s.revision + 1) (drop (length s.events) t.events) t ≡ t) × (g.news ≡ []))
      ⊎ ((commit (s.revision + 1) (drop (length s.events) t.events) t ≡ record t {
        revision = s.revision + 1;
        delivered = t.delivered ++ all_deliveries (s.revision + 1) g.news t.watchers;
      })
          × (g.news ≢ []))
  unfolding commit publish
  commit-cases = rw (drop-Grows s t g) (cases g.news)
    where
      cases :
          (news : List Event)
          → ((commit (s.revision + 1) news t ≡ t) × (news ≡ []))
            ⊎ ((commit (s.revision + 1) news t ≡ record t {
              revision = s.revision + 1;
              delivered = t.delivered ++ all_deliveries (s.revision + 1) news t.watchers;
            })
                × (news ≢ []))
      cases [] = inl (refl, refl)
      cases (e ∷ es) = inr (refl, λ p. cc)

  pub commit-IsValid :
      IsValid s → IsValid (commit (s.revision + 1) (drop (length s.events) t.events) t)
  commit-IsValid v = elim commit-cases [
    | inl (same, quiet) ↦
        rw same (IsValid-SameView s t (quiet-SameView s t g quiet) (g.distinct v.distinct) v)
    | inr (committed, loud) ↦
        rw committed
          (Grows-IsValid s t g v (t.delivered ++ all_deliveries (s.revision + 1) g.news t.watchers))
  ]

pub apply_writes-IsValid :
    (c : Codec) (ops : List Op) (s : Store) → IsValid s → IsValid (apply_writes c ops s).1
unfolding apply_writes finish_writes
apply_writes-IsValid c ops s v =
    finish (run_ops c (s.revision + 1) ops s) (run_ops-Grows c (s.revision + 1) ops s)
  where
    finish :
        (r : Result (List Response) × Store)
        → Grows (s.revision + 1) s r.1
        → IsValid (finish_writes (length s.events) (s.revision + 1) r).1
    finish (ok rs, t) g = commit-IsValid s t g v
    finish (err e, t) g =
        IsValid-SameView s (rollback (length s.events) (s.revision + 1) t)
          (rollback-SameView (s.revision + 1) s t g) (rollback-IsDistinct s t g v.distinct) v

pub delete_each-Grows :
    (rev : ℕ) (keys : List Text) (s : Store) → Grows rev s (delete_each rev keys s)
unfolding delete_each
delete_each-Grows rev [] s = Grows-refl rev s
delete_each-Grows rev (key ∷ keys) s =
    Grows-trans (delete_at-Grows rev key [] s)
      (delete_each-Grows rev keys (delete_at rev key [] s).1)
