-- ===== src/Mvcc/Compaction.antt =====
-- Compaction loses no read at or above its target: the store keeps its
-- invariant and its answers.
use nodejs_k8s.Prelude.{
  nat_eq, ℕ, ◌≤◌, ◌<◌, Text, Bool, none, List, [], ◌∷◌, ◌==◌, ◌≡◌, inl, inr, refl, sym, ap, ◌∙◌,
  All, arith, text_eq, text_beq_iff, filter, ltb, if◌then◌else◌, ltb→lt, if_ind, Bool-cases,
}
use mathlib.Core.Path.{subst}
use nodejs_k8s.Prelude.Map
use nodejs_k8s.Prelude.Map.{Map}
use nodejs_k8s.Mvcc.Types.{Entry, Event, Store}
use nodejs_k8s.Mvcc.Read.{chain_of, scan, live, entry_at}
use nodejs_k8s.Mvcc.Compact.{
  keep_from, kept_chain, is_lone_tombstone, compact_keys, compacted_store,
}
use nodejs_k8s.Mvcc.Chains.{lookup_chain, chain_of-lookup}
use nodejs_k8s.Mvcc.Survivors.{Answers, survivors, live-survivors, IsChain-kept_chain}
use nodejs_k8s.Mvcc.Valid.{IsChain, IsValid, Rises, event_rev}

survivors-nil : (target : ℕ) → survivors target [] ≡ []
unfolding survivors kept_chain keep_from is_lone_tombstone
survivors-nil target = refl

lookup_chain-cons :
    (k j : Text) (chain : List Entry) (keys : Map Text (List Entry))
    → lookup_chain k ((j, chain) ∷ keys) ≡ (if j == k then chain else lookup_chain k keys)
unfolding Map.get
lookup_chain-cons k j chain keys = ground (arith, text_beq_iff j k)

lookup_chain-compact_keys :
    (target : ℕ) (k : Text) (keys : Map Text (List Entry))
    → Map.IsDistinct keys
    → lookup_chain k (compact_keys target keys) ≡ survivors target (lookup_chain k keys)
unfolding compact_keys survivors
lookup_chain-compact_keys target k [] d =
    unfold Map.get kept_chain keep_from is_lone_tombstone in refl
lookup_chain-compact_keys target k ((j, chain) ∷ keys) d = ground (
  arith,
  lookup_chain-compact_keys target k keys d.1,
  lookup_chain-cons k j chain keys,
  lookup_chain-cons k j (kept_chain target chain) (compact_keys target keys),
  text_beq_iff j k,
  d.0,
  survivors-nil target,
)

get-compact_keys :
    (target : ℕ) (k : Text) (keys : Map Text (List Entry))
    → Map.get k keys ≡ none
    → Map.get k (compact_keys target keys) ≡ none
unfolding compact_keys Map.get
get-compact_keys target k [] h = refl
get-compact_keys target k ((j, chain) ∷ keys) h = ground (arith, get-compact_keys target k keys)

IsDistinct-compact_keys :
    (target : ℕ) (keys : Map Text (List Entry))
    → Map.IsDistinct keys
    → Map.IsDistinct (compact_keys target keys)
unfolding compact_keys
IsDistinct-compact_keys target [] d = tt
IsDistinct-compact_keys target ((j, chain) ∷ keys) d =
    if_ind Map.IsDistinct (is_lone_tombstone (kept_chain target chain))
      (IsDistinct-compact_keys target keys d.1)
      (get-compact_keys target j keys d.0, IsDistinct-compact_keys target keys d.1)

chain_of-compacted_store :
    (target : ℕ) (s : Store) (k : Text)
    → Map.IsDistinct s.keys
    → chain_of (compacted_store target s) k ≡ survivors target (chain_of s k)
unfolding compacted_store
chain_of-compacted_store target s k d =
    chain_of-lookup (compacted_store target s) k
    ∙ lookup_chain-compact_keys target k s.keys d
    ∙ ap (survivors target) (sym (chain_of-lookup s k))

pub entry_at-compacted_store :
    (target rev : ℕ) (s : Store) (key : Text)
    → IsValid s
    → Answers target rev
    → entry_at (compacted_store target s) key rev ≡ entry_at s key rev
unfolding entry_at
entry_at-compacted_store target rev s key v a =
    ap (λ chain. live (scan rev none chain)) (chain_of-compacted_store target s key v.distinct)
    ∙ live-survivors target rev (chain_of s key) a (v.chains key).rises

IsChain-survivors :
    (now target : ℕ) (chain : List Entry) → IsChain now chain → IsChain now (survivors target chain)
unfolding survivors
IsChain-survivors now target chain h =
    if_ind (IsChain now) (is_lone_tombstone (kept_chain target chain))
      (record { rises = tt; positive = tt; bounded = tt }) (IsChain-kept_chain now target chain h)

module _ (target : ℕ) where
  abbrev newer : Event → Bool
  newer e = ltb target e.rev

  All-filter {ℓ} : (P : Event → Type ℓ) (es : List Event) → All P es → All P (filter newer es)
  unfolding filter
  All-filter P [] h = tt
  All-filter P (e ∷ es) h =
      if_ind (All P) (newer e) (h.0, All-filter P es h.1) (All-filter P es h.1)

  Rises-filter : (es : List Event) → Rises event_rev es → Rises event_rev (filter newer es)
  unfolding filter
  Rises-filter [] h = tt
  Rises-filter (e ∷ es) h =
      if_ind (Rises event_rev) (newer e)
        (All-filter (λ (y : Event). e.rev ≤ y.rev) es h.0, Rises-filter es h.1)
        (Rises-filter es h.1)

  filter-newer : (es : List Event) → All (λ (e : Event). target < e.rev) (filter newer es)
  unfolding filter
  filter-newer [] = tt
  filter-newer (e ∷ es) = elim (Bool-cases (newer e)) [
    | inl new ↦ rw new (ltb→lt target e.rev new, filter-newer es)
    | inr old ↦ rw old (filter-newer es)
  ]

pub compacted_store-IsValid :
    (target : ℕ) (s : Store) → target ≤ s.revision → IsValid s → IsValid (compacted_store target s)
unfolding compacted_store
compacted_store-IsValid target s le v = record {
  chains = λ k.
      subst (IsChain s.revision) (sym (chain_of-compacted_store target s k v.distinct))
        (IsChain-survivors s.revision target (chain_of s k) (v.chains k));
  distinct = IsDistinct-compact_keys target s.keys v.distinct;
  log_rises = Rises-filter target s.events v.log_rises;
  log_bounded = All-filter target (λ (e : Event). e.rev ≤ s.revision) s.events v.log_bounded;
  log_uncompacted = filter-newer target s.events;
  compact-le-revision = le;
}
