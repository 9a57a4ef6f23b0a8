-- ===== src/Raft/Following.antt =====
-- What a follower does in store/raft.js: `handleAppend` and `handleSnapshot`.
use nodejs_k8s.Prelude.{
  ℕ, ◌+◌, max, min, Bool, true, false, not, ◌||◌, Option, none, some, List, [], ◌∷◌, ◌++◌, nat_beq,
  ltb, leb, filter, if◌then◌else◌,
}
use nodejs_k8s.Raft.Types.{
  LogEntry, Raft, RaftSnapshot, AppendRequest, AppendReply, SnapshotRequest,
}
use nodejs_k8s.Raft.Log.{last_index, entry_at, rewrite, save_snapshot, entries_after}
use nodejs_k8s.Raft.Progress.{apply_committed}
use nodejs_k8s.Raft.Election.{is_follower, become_follower}

-- `Math.min(first, ...entries.map((e) => e.index))`
unfoldable pub min_index : {Cmd : Type 0} → ℕ → List (LogEntry Cmd) → ℕ
min_index first [] = first
min_index first (e ∷ es) = min_index (min first e.index) es

unfoldable pub holds_entry : {Cmd : Type 0} → LogEntry Cmd → Option (LogEntry Cmd) → Bool
holds_entry entry none = false
holds_entry entry (some existing) = nat_beq existing.term entry.term

module _ {Cmd State Reply : Type 0} where
  -- the log disagrees with the request about the entry before the new ones, and this is the index that
  -- the leader is pointed at; `prev` is itself in the list of which the source takes the minimum
  unfoldable pub conflict : AppendRequest Cmd → Raft Cmd State Reply → Option ℕ
  conflict q r =
      if nat_beq q.prev_log_index 0 || nat_beq q.prev_log_index r.snapshot_index
      then none
      else elim (entry_at r q.prev_log_index) [
        | none ↦ some (max 1 (last_index r + 1))
        | some prev ↦
            if nat_beq prev.term q.prev_log_term
            then none
            else some (
                max 1 (
                  min_index prev.index
                    (filter (λ (e : LogEntry Cmd). nat_beq e.term prev.term) r.log)))
      ]

  -- the first of the entries that the log does not hold under its term
  unfoldable pub diverges_at : List (LogEntry Cmd) → Raft Cmd State Reply → Option ℕ
  unfolding holds_entry
  diverges_at [] r = none
  diverges_at (entry ∷ entries) r =
      let rest = diverges_at entries r in
      if holds_entry entry (entry_at r entry.index) then rest else some entry.index

  unfoldable pub store_entries : List (LogEntry Cmd) → Raft Cmd State Reply → Raft Cmd State Reply
  unfolding rewrite
  store_entries entries r = elim (diverges_at entries r) [
    | none ↦ r
    | some at ↦ rewrite (record r {
      log =
          filter (λ (e : LogEntry Cmd). ltb e.index at) r.log
          ++ filter (λ (e : LogEntry Cmd). leb at e.index) entries;
    })
  ]

  -- the term of the request is current: this replica follows its sender
  unfoldable pub follow : ℕ → ℕ → Raft Cmd State Reply → Raft Cmd State Reply
  follow term leader_id r =
      let r' =
        if ltb r.current_term term || not (is_follower r.role) then become_follower term r else r in
      record r' { leader_id = some leader_id }

  module _ (apply : Cmd → ℕ → State → Reply × State) where
    unfoldable pub commit_to : ℕ → Raft Cmd State Reply → Raft Cmd State Reply
    commit_to leader_commit r =
        if ltb r.commit_index leader_commit
        then apply_committed apply (record r { commit_index = min leader_commit (last_index r) })
        else r

    unfoldable pub accept_entries :
        AppendRequest Cmd → Raft Cmd State Reply → AppendReply × Raft Cmd State Reply
    accept_entries q r =
        let r' = commit_to q.leader_commit (store_entries q.entries r) in
        (
          record {
            term = r'.current_term;
            success = true;
            conflict_index = none;
            match_index = some (last_index r');
          },
          r',
        )

    unfoldable pub handle_append :
        AppendRequest Cmd → Raft Cmd State Reply → AppendReply × Raft Cmd State Reply
    unfolding accept_entries
    handle_append q r =
        let r' = follow q.term q.leader_id r in
        let accepted = accept_entries q r' in
        if ltb q.term r.current_term
        then (
          record {
            term = r.current_term;
            success = false;
            conflict_index = none;
            match_index = none;
          },
          r,
        )
        else elim (conflict q r') [
          | none ↦ accepted
          | some at ↦ (
            record {
              term = r'.current_term;
              success = false;
              conflict_index = some at;
              match_index = none;
            },
            r',
          )
        ]

  -- the replica's machine becomes the state in the snapshot
  unfoldable pub install : RaftSnapshot State → Raft Cmd State Reply → Raft Cmd State Reply
  unfolding rewrite save_snapshot
  install snap r =
      let r' = save_snapshot snap r in
      record (rewrite (record r' {
        snapshot_index = snap.index;
        snapshot_term = snap.term;
        commit_index = snap.index;
        last_applied = snap.index;
        log = entries_after snap.index r.log;
      })) { machine = snap.state }

  unfoldable pub handle_snapshot :
      SnapshotRequest State → Raft Cmd State Reply → AppendReply × Raft Cmd State Reply
  unfolding install
  handle_snapshot q r =
      let followed = record (become_follower q.term r) { leader_id = some q.leader_id } in
      let r' = install q.snapshot followed in
      if ltb q.term r.current_term
      then (
        record {
          term = r.current_term;
          success = false;
          conflict_index = none;
          match_index = none;
        },
        r,
      )
      else (
        record {
          term = r'.current_term;
          success = true;
          conflict_index = none;
          match_index = none;
        },
        r',
      )
