-- ===== src/Raft/Lifecycle.antt =====
-- The life of a replica in store/raft.js: the constructor, `start` from what is on disk, and `stop`.
use nodejs_k8s.Prelude.{
  ℕ, true, false, Option, none, some, List, [], ◌++◌, map, not, nat_beq, filter,
}
use nodejs_k8s.Raft.Types.{follower, server_stopped, Raft, RaftSnapshot, Wal}
use nodejs_k8s.Raft.Log.{entries_after}
use nodejs_k8s.Raft.Progress.{apply_committed}

module _ {Cmd State Reply : Type 0} where
  -- `new Raft({ id, peers, dir, snapshotEvery })`, over the files that the directory holds
  unfoldable pub new : ℕ → List ℕ → ℕ → Wal Cmd State → State → Raft Cmd State Reply
  new id peers snapshot_every wal machine = record {
    id = id;
    peers = filter (λ p. not (nat_beq p id)) peers;
    snapshot_every = snapshot_every;
    wal = wal;
    current_term = 0;
    voted_for = none;
    log = [];
    snapshot_index = 0;
    snapshot_term = 0;
    commit_index = 0;
    last_applied = 0;
    role = follower;
    leader_id = none;
    next_index = [];
    match_index = [];
    pending = [];
    stopped = false;
    machine = machine;
    settlements = [];
  }

  unfoldable pub load_snapshot :
      Option (RaftSnapshot State) → Raft Cmd State Reply → Raft Cmd State Reply
  load_snapshot none r = r
  load_snapshot (some snap) r = record r {
    snapshot_index = snap.index;
    snapshot_term = snap.term;
    commit_index = snap.index;
    last_applied = snap.index;
    machine = snap.state;
  }

  unfoldable pub start :
      (Cmd → ℕ → State → Reply × State) → Raft Cmd State Reply → Raft Cmd State Reply
  unfolding load_snapshot
  start apply r =
      let loaded =
        load_snapshot r.wal.snapshot (record r {
          current_term = r.wal.state.current_term;
          voted_for = r.wal.state.voted_for;
        }) in
      apply_committed apply (record loaded { log = entries_after loaded.snapshot_index r.wal.log })

  unfoldable pub stop : Raft Cmd State Reply → Raft Cmd State Reply
  stop r = record r {
    stopped = true;
    settlements = r.settlements ++ map (λ (p : ℕ × ℕ). (p.0, server_stopped)) r.pending;
    pending = [];
  }
