-- ===== src/Raft/Steps.antt =====
-- A replica as a state machine: the events that its handlers answer, and what stays true over any
-- sequence of them.
use nodejs_k8s.Prelude.{ℕ, Option, none, some, List, [], ◌∷◌, ◌≡◌, nat_eq}
use nodejs_k8s.Raft.Types.{
  Raft, VoteRequest, VoteReply, AppendRequest, AppendReply, SnapshotRequest,
}
use nodejs_k8s.Raft.Election.{handle_vote}
use nodejs_k8s.Raft.Leading.{
  Sends, replicate, propose, start_election, handle_vote_reply, handle_append_reply,
  handle_snapshot_reply,
}
use nodejs_k8s.Raft.Following.{handle_append, handle_snapshot}
use nodejs_k8s.Raft.Lifecycle.{stop, new, start}

-- what may happen to a replica: a message, a reply to one of its own, a client, a timer
pub data Event (Cmd State : Type 0) : Type 0 where
  on_vote : VoteRequest → Event Cmd State
  on_append : AppendRequest Cmd → Event Cmd State
  on_snapshot : SnapshotRequest State → Event Cmd State
  on_vote_reply : ℕ → ℕ → VoteReply → Event Cmd State
  on_append_reply : ℕ → ℕ → ℕ → AppendReply → Event Cmd State
  on_snapshot_reply : ℕ → ℕ → AppendReply → Event Cmd State
  on_propose : Cmd → Event Cmd State
  election_timeout heartbeat on_stop : Event Cmd State
  -- the process ends, and a new one starts over the same files, its machine empty
  on_restart : State → Event Cmd State

module _ {Cmd State Reply : Type 0} where
  unfoldable pub proposed :
      Option (Raft Cmd State Reply × Sends Cmd State) → Raft Cmd State Reply → Raft Cmd State Reply
  proposed none r = r
  proposed (some (r', sends)) r = r'

  -- the disk holds the term and the vote that the memory holds
  unfoldable pub IsSaved : Raft Cmd State Reply → Type 0
  IsSaved r = r.wal.state ≡ record { current_term = r.current_term; voted_for = r.voted_for }

module _ {Cmd State Reply : Type 0} (apply : Cmd → ℕ → State → Reply × State) (noop : Cmd) where
  unfoldable pub restart : State → Raft Cmd State Reply → Raft Cmd State Reply
  restart machine r = start apply (new r.id r.peers r.snapshot_every r.wal machine)

  unfoldable pub step : Event Cmd State → Raft Cmd State Reply → Raft Cmd State Reply
  unfolding proposed
  step (on_vote q) r = (handle_vote q r).1
  step (on_append q) r = (handle_append apply q r).1
  step (on_snapshot q) r = (handle_snapshot q r).1
  step (on_vote_reply term votes reply) r = (handle_vote_reply apply noop term votes reply r).1.0
  step (on_append_reply peer next count reply) r = handle_append_reply apply peer next count reply r
  step (on_snapshot_reply peer index reply) r = handle_snapshot_reply apply peer index reply r
  step (on_propose cmd) r = proposed (propose apply cmd r) r
  step election_timeout r = (start_election apply noop r).0
  step heartbeat r = (replicate r).0
  step on_stop r = stop r
  step (on_restart machine) r = restart machine r

  unfoldable pub run : List (Event Cmd State) → Raft Cmd State Reply → Raft Cmd State Reply
  run [] r = r
  run (e ∷ es) r = run es (step e r)
