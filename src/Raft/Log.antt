-- ===== src/Raft/Log.antt =====
-- The log helpers of store/raft.js, and the writes to its three files in store/wal.js.
use nodejs_k8s.Prelude.{
  ℕ, ◌+◌, ◌/◌, Option, none, some, List, ◌++◌, length, filter, find, last?, nat_beq, ltb,
}
use nodejs_k8s.Prelude.{if◌then◌else◌}
use nodejs_k8s.Raft.Types.{LogEntry, RaftSnapshot, Raft}

-- `this.log.filter((e) => e.index > index)`
unfoldable pub entries_after : {Cmd : Type 0} → ℕ → List (LogEntry Cmd) → List (LogEntry Cmd)
entries_after index log = filter (λ e. ltb index e.index) log

module _ {Cmd State Reply : Type 0} where
  -- `get lastIndex()`
  unfoldable pub last_index : Raft Cmd State Reply → ℕ
  last_index r = elim (last? r.log) [ none ↦ r.snapshot_index | some e ↦ e.index ]

  -- `get lastTerm()`
  unfoldable pub last_term : Raft Cmd State Reply → ℕ
  last_term r = elim (last? r.log) [ none ↦ r.snapshot_term | some e ↦ e.term ]

  unfoldable pub entry_at : Raft Cmd State Reply → ℕ → Option (LogEntry Cmd)
  entry_at r index =
      if nat_beq index r.snapshot_index
      then some (record { term = r.snapshot_term; index = index; cmd = none })
      else find (λ e. nat_beq e.index index) r.log

  unfoldable pub quorum : Raft Cmd State Reply → ℕ
  quorum r = (length r.peers + 1) / 2 + 1

  -- `persistState`, with `saveState`
  unfoldable pub persist_state : Raft Cmd State Reply → Raft Cmd State Reply
  persist_state r = record r {
    wal = record r.wal {
      state = record { current_term = r.current_term; voted_for = r.voted_for };
    };
  }

  -- `wal.append(entries)`
  unfoldable pub wal_append : List (LogEntry Cmd) → Raft Cmd State Reply → Raft Cmd State Reply
  wal_append entries r = record r { wal = record r.wal { log = r.wal.log ++ entries } }

  -- `wal.rewrite(this.log)`
  unfoldable pub rewrite : Raft Cmd State Reply → Raft Cmd State Reply
  rewrite r = record r { wal = record r.wal { log = r.log } }

  -- `wal.saveSnapshot(snapshot)`
  unfoldable pub save_snapshot : RaftSnapshot State → Raft Cmd State Reply → Raft Cmd State Reply
  save_snapshot snap r = record r { wal = record r.wal { snapshot = some snap } }
