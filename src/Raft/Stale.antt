-- ===== src/Raft/Stale.antt =====
-- What a repeated append does in store/raft.js (`handleAppend`) when it starts below the follower's
-- snapshot.
use nodejs_k8s.Prelude.{
  ℕ, ◌<◌, none, List, [], ◌∷◌, ◌≡◌, refl, arith, ltb, leb, nat_beq, All, find, filter, nat_eq,
}
use nodejs_k8s.Raft.Types.{LogEntry, Raft}
use nodejs_k8s.Raft.Log.{entry_at, rewrite}
use nodejs_k8s.Raft.Following.{diverges_at, holds_entry, store_entries}

module _ {Cmd : Type 0} where
  find-above :
      (index base : ℕ) (log : List (LogEntry Cmd))
      → index < base
      → All (λ (x : LogEntry Cmd). base < x.index) log
      → find (λ (x : LogEntry Cmd). nat_beq x.index index) log ≡ none
  unfolding find
  find-above index base [] h all = refl
  find-above index base (x ∷ log) h all =
      ground (arith, h, all.0, find-above index base log h all.1)

  filter-below :
      (index base : ℕ) (log : List (LogEntry Cmd))
      → index < base
      → All (λ (x : LogEntry Cmd). base < x.index) log
      → filter (λ (x : LogEntry Cmd). ltb x.index index) log ≡ []
  unfolding filter
  filter-below index base [] h all = refl
  filter-below index base (x ∷ log) h all =
      ground (arith, h, all.0, filter-below index base log h all.1)

module _ {Cmd State Reply : Type 0} where
  -- If the first entry of a request is below the follower's snapshot, whose log goes on above it, the
  -- entry counts as missing: the log, in memory and on disk, becomes the request's entries from the
  -- first one's index on, and every entry that the follower had is gone.
  store_entries-below :
      (e : LogEntry Cmd) (es : List (LogEntry Cmd)) (r : Raft Cmd State Reply)
      → e.index < r.snapshot_index
      → All (λ (x : LogEntry Cmd). r.snapshot_index < x.index) r.log
      → let kept = filter (λ (x : LogEntry Cmd). leb e.index x.index) (e ∷ es) in
        ((store_entries (e ∷ es) r).log ≡ kept) × ((store_entries (e ∷ es) r).wal.log ≡ kept)
  unfolding store_entries diverges_at entry_at holds_entry rewrite
  store_entries-below e es r h all = ground (
    arith,
    h,
    find-above e.index r.snapshot_index r.log h all,
    filter-below e.index r.snapshot_index r.log h all,
  )
