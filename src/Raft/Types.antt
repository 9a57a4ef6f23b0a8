-- ===== src/Raft/Types.antt =====
-- The state of class `Raft` (store/raft.js) and of the files of class `Wal` (store/wal.js), and the
-- messages between replicas. The state machine behind the `apply` callback is generic: `Cmd` is a
-- command, `State` what the callback mutates and what a snapshot holds, `Reply` what the callback
-- returns or throws. A replica's id is a number.
use nodejs_k8s.Prelude.{ℕ, Bool, Option, List}
use nodejs_k8s.Prelude.Map.{Map}

pub data Role : Type 0 where
  follower candidate leader : Role

-- a command of `none` stands for an entry without `cmd`
pub record LogEntry (Cmd : Type 0) : Type 0 where
  pub term : ℕ
  pub index : ℕ
  pub cmd : Option Cmd

pub record SavedState : Type 0 where
  pub current_term : ℕ
  pub voted_for : Option ℕ

pub record RaftSnapshot (State : Type 0) : Type 0 where
  pub index : ℕ
  pub term : ℕ
  pub state : State

-- the three files: `raft.state`, `raft.log`, `raft.snapshot`
pub record Wal (Cmd State : Type 0) : Type 0 where
  pub state : SavedState
  pub log : List (LogEntry Cmd)
  pub snapshot : Option (RaftSnapshot State)

-- how a caller's promise was settled
pub data Outcome (Reply : Type 0) : Type 0 where
  settled : Reply → Outcome Reply
  not_leader server_stopped : Outcome Reply

-- `timers` are left out: they decide when a handler runs, never what it does. `settled` records, in
-- order, the promises settled so far, each with the index that it waited on.
pub record Raft (Cmd State Reply : Type 0) : Type 0 where
  pub id : ℕ
  pub peers : List ℕ
  pub snapshot_every : ℕ
  pub wal : Wal Cmd State
  pub current_term : ℕ
  pub voted_for : Option ℕ
  pub log : List (LogEntry Cmd)
  pub snapshot_index : ℕ
  pub snapshot_term : ℕ
  pub commit_index : ℕ
  pub last_applied : ℕ
  pub role : Role
  pub leader_id : Option ℕ
  pub next_index : Map ℕ ℕ
  pub match_index : Map ℕ ℕ
  pub pending : Map ℕ ℕ
  pub stopped : Bool
  pub machine : State
  pub settlements : List (ℕ × Outcome Reply)

pub record VoteRequest : Type 0 where
  pub term : ℕ
  pub candidate_id : ℕ
  pub last_log_index : ℕ
  pub last_log_term : ℕ

pub record VoteReply : Type 0 where
  pub term : ℕ
  pub vote_granted : Bool

pub record AppendRequest (Cmd : Type 0) : Type 0 where
  pub term : ℕ
  pub leader_id : ℕ
  pub prev_log_index : ℕ
  pub prev_log_term : ℕ
  pub entries : List (LogEntry Cmd)
  pub leader_commit : ℕ

pub record AppendReply : Type 0 where
  pub term : ℕ
  pub success : Bool
  pub conflict_index : Option ℕ
  pub match_index : Option ℕ

pub record SnapshotRequest (State : Type 0) : Type 0 where
  pub term : ℕ
  pub leader_id : ℕ
  pub snapshot : RaftSnapshot State

pub data Message (Cmd State : Type 0) : Type 0 where
  vote : VoteRequest → Message Cmd State
  append : AppendRequest Cmd → Message Cmd State
  snapshot : SnapshotRequest State → Message Cmd State
