-- ===== src/Raft/Examples.antt =====
-- The theorems of the replica at concrete inputs: a cluster of three whose machine adds numbers up.
use nodejs_k8s.Prelude.{ℕ, ◌+◌, ◌≤◌, List, [], ◌∷◌, ◌≡◌, refl, arith, find, none, some, ◌⊎◌}
use nodejs_k8s.Prelude.{last?, filter}
use nodejs_k8s.Prelude.Map
use nodejs_k8s.Raft.Types.{Raft, LogEntry, VoteRequest, AppendRequest, Wal, leader}
use nodejs_k8s.Raft.Log.{
  quorum, last_index, entry_at, last_term, persist_state, rewrite, save_snapshot, entries_after,
}
use nodejs_k8s.Raft.Progress.{
  apply_committed, apply_rounds, apply_next, apply_found, apply_entry, settle, maybe_snapshot,
  outcome_for, snapshot_now, take_snapshot,
}
use nodejs_k8s.Raft.Election.{
  handle_vote, is_leader, is_follower, adopt_term, become_follower, cast_vote, free_to_vote, grants,
  up_to_date, reject_pending,
}
use nodejs_k8s.Raft.Leading.{advance_commit, is_committable, replicas_at, replicate}
use nodejs_k8s.Raft.Following.{
  handle_append, conflict, commit_to, store_entries, diverges_at, holds_entry, accept_entries,
  follow,
}
use nodejs_k8s.Raft.Lifecycle.{new, start, load_snapshot}
use nodejs_k8s.Raft.Steps.{
  Event, on_append, on_restart, heartbeat, election_timeout, step, restart, run, IsSaved,
}
use nodejs_k8s.Raft.Once.{votes_once}
use nodejs_k8s.Raft.Commit.{IsHeld, advance_commit-quorum, advance_commit_complete}
use nodejs_k8s.Raft.Stored.{Ascends, IsStored, store_entries-IsStored}
use nodejs_k8s.Prelude.{All}

abbrev sum_up : ℕ → ℕ → ℕ → ℕ × ℕ
sum_up cmd index total = (index, total + cmd)

abbrev empty_wal : Wal ℕ ℕ
empty_wal = record {
  state = record { current_term = 0; voted_for = none };
  log = [];
  snapshot = none;
}

abbrev one : Raft ℕ ℕ ℕ
one = new 1 (1 ∷ 2 ∷ 3 ∷ []) 100 empty_wal 0

abbrev from_two : VoteRequest
from_two = record { term = 1; candidate_id = 2; last_log_index = 0; last_log_term = 0 }

abbrev two_leads : AppendRequest ℕ
two_leads = record {
  term = 1;
  leader_id = 2;
  prev_log_index = 0;
  prev_log_term = 0;
  entries = record { term = 0; index = 1; cmd = some 5 } ∷ [];
  leader_commit = 1;
}

abbrev between : List (Event ℕ ℕ)
between = on_append two_leads ∷ heartbeat ∷ on_restart 0 ∷ []

abbrev from_two_again : VoteRequest
from_two_again = record { term = 1; candidate_id = 2; last_log_index = 1; last_log_term = 1 }

votes_once_example : from_two_again.candidate_id ≡ from_two.candidate_id
unfolding IsSaved new handle_vote last? run step restart start load_snapshot apply_committed
    apply_rounds replicate is_leader entries_after diverges_at filter find Map.get Map.set
    Map.delete adopt_term become_follower cast_vote free_to_vote grants is_follower reject_pending
    up_to_date accept_entries follow handle_append conflict commit_to store_entries holds_entry
    entry_at last_index last_term persist_state rewrite save_snapshot snapshot_now take_snapshot
    maybe_snapshot settle outcome_for apply_entry apply_found apply_next
votes_once_example = votes_once sum_up 0 from_two from_two_again between one refl refl refl refl

abbrev timeouts : List (Event ℕ ℕ)
timeouts = election_timeout ∷ on_restart 7 ∷ election_timeout ∷ []

abbrev entries : List (LogEntry ℕ)
entries =
    record { term = 1; index = 1; cmd = some 5 }
    ∷ record { term = 2; index = 2; cmd = none }
    ∷ record { term = 2; index = 3; cmd = some 4 }
    ∷ []

-- a leader in term 2 whose first two entries are on two replicas
abbrev leads : Raft ℕ ℕ ℕ
leads = record one {
  role = leader;
  current_term = 2;
  log = entries;
  match_index = (2, 2) ∷ (3, 0) ∷ [];
}

abbrev behind : Raft ℕ ℕ ℕ
behind = record leads { commit_index = 3 }

applied_total : (apply_committed sum_up behind).machine ≡ 9
unfolding apply_committed apply_rounds apply_next apply_found apply_entry settle maybe_snapshot
    entry_at find Map.get new
applied_total = refl

advance_commit-quorum_example :
    (leads.commit_index ≤ (advance_commit sum_up leads).commit_index)
    × (((advance_commit sum_up leads).commit_index ≡ leads.commit_index)
        ⊎ (((advance_commit sum_up leads).commit_index ≤ last_index leads)
            × IsHeld (advance_commit sum_up leads).commit_index leads))
advance_commit-quorum_example = advance_commit-quorum sum_up leads

advance_commit_complete_example :
    (2 ≤ (advance_commit sum_up leads).commit_index)
    × ((2 ≤ (advance_commit sum_up leads).last_applied) ⊎ (2 ≤ leads.commit_index))
unfolding last_index is_committable last? entry_at new find quorum filter replicas_at
advance_commit_complete_example = advance_commit_complete sum_up 2 leads (omega arith) (record {
  entry = record { term = 2; index = 2; cmd = none };
  found = refl;
  current = refl;
  majority = omega arith;
})

abbrev fifth : LogEntry ℕ
fifth = record { term = 2; index = 5; cmd = some 3 }

-- its snapshot covers the first four entries
abbrev compacted : Raft ℕ ℕ ℕ
compacted = record one { snapshot_index = 4; snapshot_term = 2; log = fifth ∷ [] }

abbrev repeated : LogEntry ℕ
repeated = record { term = 1; index = 1; cmd = some 5 }

abbrev sixth : LogEntry ℕ
sixth = record { term = 3; index = 6; cmd = some 1 }

store_entries-IsStored_example :
    All (IsStored (store_entries (fifth ∷ sixth ∷ []) compacted)) (fifth ∷ sixth ∷ [])
unfolding Ascends
store_entries-IsStored_example =
    store_entries-IsStored (fifth ∷ sixth ∷ []) compacted ((omega arith, tt), (tt, tt))
      (omega arith, (omega arith, tt))
