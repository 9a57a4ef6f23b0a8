-- ===== src/Mvcc/Compact.antt =====
-- Compaction: `applyCompact` of store/mvcc.js.
use nodejs_k8s.Prelude.{ℕ, Text, Bool, false, List, [], ◌∷◌, ltb, leb, filter, if◌then◌else◌}
use nodejs_k8s.Prelude.Map.{Map}
use nodejs_k8s.Mvcc.Types.{Entry, Event, Store, Result, ok, err, compacted, future_revision}

pub record Compaction : Type 0 where
  pub revision : ℕ
  pub compact_revision : ℕ

-- the entries from the newest one at or below `target` on: each one that is at or below it moves
-- `keepFrom` to its index, dropping what stands before
unfoldable pub keep_from : ℕ → List Entry → List Entry → List Entry
keep_from target kept [] = kept
keep_from target kept (entry ∷ rest) =
    keep_from target (if leb entry.rev target then entry ∷ rest else kept) rest

unfoldable pub kept_chain : ℕ → List Entry → List Entry
unfolding keep_from
kept_chain target chain = keep_from target chain chain

unfoldable pub is_lone_tombstone : List Entry → Bool
is_lone_tombstone (entry ∷ []) = entry.deleted
is_lone_tombstone chain = false

unfoldable pub compact_keys : ℕ → Map Text (List Entry) → Map Text (List Entry)
unfolding is_lone_tombstone
compact_keys target [] = []
compact_keys target ((key, chain) ∷ keys) =
    let rest = compact_keys target keys in
    if is_lone_tombstone (kept_chain target chain)
    then rest
    else (key, kept_chain target chain) ∷ rest

unfoldable pub compacted_store : ℕ → Store → Store
compacted_store target s = record s {
  compact_revision = target;
  keys = compact_keys target s.keys;
  events = filter (λ (e : Event). ltb target e.rev) s.events;
}

unfoldable pub apply_compact : ℕ → Store → Result Compaction × Store
apply_compact target s =
    if ltb s.revision target
    then (err future_revision, s)
    else if leb target s.compact_revision
    then (err compacted, s)
    else (
      ok (record { revision = s.revision; compact_revision = target }),
      compacted_store target s,
    )
