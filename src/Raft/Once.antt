-- ===== src/Raft/Once.antt =====
-- A replica votes once in a term, over any sequence of events, crashes and restarts included.
use nodejs_k8s.Prelude.{
  ℕ, ◌≤◌, true, Option, none, some, List, [], ◌∷◌, ◌≡◌, ◌∙◌, refl, sym, ap, arith, ltb,
  if◌then◌else◌, if_ind, nat_eq,
}
use nodejs_k8s.Raft.Types.{SavedState, Raft, RaftSnapshot, VoteRequest}
use nodejs_k8s.Raft.Log.{persist_state, entries_after}
use nodejs_k8s.Raft.Election.{become_follower, grants, cast_vote, handle_vote}
use nodejs_k8s.Raft.Lifecycle.{stop, new, start, load_snapshot}
use nodejs_k8s.Raft.Votes.{
  Follows, SameVote, SameVote-Follows, Follows-trans, become_follower-Follows,
  apply_committed-SameVote, handle_append-Follows, handle_snapshot-Follows,
}
use nodejs_k8s.Raft.Steps.{
  Event, on_vote, on_append, on_snapshot, on_vote_reply, on_append_reply, on_snapshot_reply,
  on_propose, election_timeout, heartbeat, on_stop, on_restart, restart, step, run, IsSaved,
}
use nodejs_k8s.Raft.Leads.{
  handle_vote-Follows, start_election-Follows, handle_vote_reply-Follows,
  handle_append_reply-Follows, handle_snapshot_reply-Follows, proposed-Follows, replicate-SameVote,
  Follows-refl, free_to_vote-same, grants-free,
}

module _ {Cmd State Reply : Type 0} (apply : Cmd → ℕ → State → Reply × State) (noop : Cmd) where
  load-SameVote :
      (machine : State) (snap : Option (RaftSnapshot State)) (r : Raft Cmd State Reply)
      → SameVote r (load_snapshot snap r)
  unfolding load_snapshot
  load-SameVote machine none r = record { term = refl; vote = refl; disk = refl }
  load-SameVote machine (some snap) r = record { term = refl; vote = refl; disk = refl }

  restart-SameVote :
      (machine : State) (r : Raft Cmd State Reply)
      → IsSaved r
      → SameVote r (restart apply noop machine r)
  unfolding IsSaved restart start new
  restart-SameVote machine r h =
      let fresh : Raft Cmd State Reply = new r.id r.peers r.snapshot_every r.wal machine in
      let read = record fresh {
        current_term = r.wal.state.current_term;
        voted_for = r.wal.state.voted_for;
      } in
      let v = load-SameVote machine r.wal.snapshot read in
      let loaded = load_snapshot r.wal.snapshot read in
      let w =
        apply_committed-SameVote apply
          (record loaded { log = entries_after loaded.snapshot_index r.wal.log }) in
      record {
        term = w.term ∙ v.term ∙ ap (λ (s : SavedState). s.current_term) h;
        vote = w.vote ∙ v.vote ∙ ap (λ (s : SavedState). s.voted_for) h;
        disk = w.disk ∙ v.disk;
      }

  step-Follows :
      (e : Event Cmd State) (r : Raft Cmd State Reply) → IsSaved r → Follows r (step apply noop e r)
  unfolding step
  step-Follows (on_vote q) r h = handle_vote-Follows apply noop q r
  step-Follows (on_append q) r h = handle_append-Follows apply q r
  step-Follows (on_snapshot q) r h = handle_snapshot-Follows apply q r
  step-Follows (on_vote_reply term votes reply) r h =
      handle_vote_reply-Follows apply noop term votes reply r
  step-Follows (on_append_reply peer next count reply) r h =
      handle_append_reply-Follows apply noop peer next count reply r
  step-Follows (on_snapshot_reply peer index reply) r h =
      handle_snapshot_reply-Follows apply noop peer index reply r
  step-Follows (on_propose cmd) r h = proposed-Follows apply noop cmd r
  step-Follows election_timeout r h = start_election-Follows apply noop r
  step-Follows heartbeat r h = SameVote-Follows r _ (replicate-SameVote apply noop r)
  step-Follows on_stop r h =
      unfold stop in SameVote-Follows r _ (record { term = refl; vote = refl; disk = refl })
  step-Follows (on_restart machine) r h = SameVote-Follows r _ (restart-SameVote machine r h)

  run-Follows :
      (es : List (Event Cmd State)) (r : Raft Cmd State Reply)
      → IsSaved r
      → Follows r (run apply noop es r)
  unfolding run IsSaved
  run-Follows [] r h = Follows-refl apply noop r
  run-Follows (e ∷ es) r h =
      let f = step-Follows e r h in
      Follows-trans f (run-Follows es (step apply noop e r) (f.saved h))

  -- a vote is for the candidate of the request, and in the term of the reply
  granted-voted_for :
      (q : VoteRequest) (r : Raft Cmd State Reply)
      → (handle_vote q r).0.vote_granted ≡ true
      → (handle_vote q r).1.voted_for ≡ some q.candidate_id
  unfolding handle_vote cast_vote persist_state
  granted-voted_for q r h = rw h refl

  reply-term :
      (q : VoteRequest) (r : Raft Cmd State Reply)
      → (handle_vote q r).1.current_term ≡ (handle_vote q r).0.term
  unfolding handle_vote cast_vote persist_state
  reply-term q r =
      let r' = if ltb r.current_term q.term then become_follower q.term r else r in
      if_ind (λ (o : Raft Cmd State Reply). o.current_term ≡ r'.current_term) (grants q r') refl
        refl

  -- who is voted for by a replica that has voted in the term
  revote :
      (q : VoteRequest) (c : ℕ) (r : Raft Cmd State Reply)
      → r.voted_for ≡ some c
      → r.current_term ≡ (handle_vote q r).0.term
      → (handle_vote q r).0.vote_granted ≡ true
      → q.candidate_id ≡ c
  unfolding handle_vote cast_vote
  revote q c r v t g =
      let r' = if ltb r.current_term q.term then become_follower q.term r else r in
      let f =
        if_ind (Follows r) (ltb r.current_term q.term) (become_follower-Follows q.term r)
          (Follows-refl apply noop r) in
      free_to_vote-same apply noop c q.candidate_id r'.voted_for (f.voted_for-kept c v t)
        (grants-free apply noop q r' g)

  -- A replica that grants its vote to two requests, whatever happens to it in between (requests and
  -- replies of any kind, proposals, timeouts, a stop, a crash and restart over its files), and answers
  -- both with the same term, granted it to one candidate. The replica's term and vote must be on disk
  -- at the first.
  pub votes_once :
      (q q' : VoteRequest) (es : List (Event Cmd State)) (r : Raft Cmd State Reply)
      → IsSaved r
      → (handle_vote q r).0.vote_granted ≡ true
      → (handle_vote q' (run apply noop es (handle_vote q r).1)).0.vote_granted ≡ true
      → (handle_vote q' (run apply noop es (handle_vote q r).1)).0.term ≡ (handle_vote q r).0.term
      → q'.candidate_id ≡ q.candidate_id
  unfolding IsSaved
  votes_once q q' es r saved g g' t =
      let voted = (handle_vote q r).1 in
      let last = run apply noop es voted in
      let f = run-Follows es voted ((handle_vote-Follows apply noop q r).saved saved) in
      let f' = handle_vote-Follows apply noop q' last in
      let same : voted.current_term ≡ (handle_vote q' last).1.current_term =
        reply-term q r ∙ sym t ∙ sym (reply-term q' last) in
      let still : voted.current_term ≡ last.current_term =
        omega (arith, same, f.current_term-le, f'.current_term-le) in
      revote q' q.candidate_id last
        (f.voted_for-kept q.candidate_id (granted-voted_for q r g) still)
        (sym still ∙ reply-term q r ∙ sym t) g'

  -- Over any sequence of events, crashes and restarts included, a replica whose term and vote are on
  -- disk keeps them on disk, and its term does not go back.
  run-IsSaved :
      (es : List (Event Cmd State)) (r : Raft Cmd State Reply)
      → IsSaved r
      → IsSaved (run apply noop es r) × (r.current_term ≤ (run apply noop es r).current_term)
  unfolding IsSaved
  run-IsSaved es r h = let f = run-Follows es r h in (f.saved h, f.current_term-le)
