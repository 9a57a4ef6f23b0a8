-- ===== src/Raft/Election.antt =====
-- Votes of store/raft.js: `becomeFollower`, `handleVote`, and the request that a candidate sends.
use nodejs_k8s.Prelude.{
  ℕ, Bool, true, false, ◌&&◌, ◌||◌, Option, none, some, [], ◌++◌, map, nat_eq, nat_beq, ltb, leb,
  if◌then◌else◌,
}
use nodejs_k8s.Raft.Types.{
  Role, follower, candidate, leader, not_leader, Raft, VoteRequest, VoteReply,
}
use nodejs_k8s.Raft.Log.{last_index, last_term, persist_state}

unfoldable pub is_leader : Role → Bool
is_leader leader = true
is_leader _ = false

unfoldable pub is_candidate : Role → Bool
is_candidate candidate = true
is_candidate _ = false

unfoldable pub is_follower : Role → Bool
is_follower follower = true
is_follower _ = false

unfoldable pub free_to_vote : Option ℕ → ℕ → Bool
free_to_vote none candidate_id = true
free_to_vote (some id) candidate_id = nat_beq id candidate_id

module _ {Cmd State Reply : Type 0} where
  -- every waiter is rejected and forgotten
  unfoldable pub reject_pending : Raft Cmd State Reply → Raft Cmd State Reply
  reject_pending r = record r {
    pending = [];
    settlements = r.settlements ++ map (λ (p : ℕ × ℕ). (p.0, not_leader)) r.pending;
  }

  unfoldable pub adopt_term : ℕ → Raft Cmd State Reply → Raft Cmd State Reply
  unfolding persist_state
  adopt_term term r =
      if ltb r.current_term term
      then persist_state (record r { current_term = term; voted_for = none })
      else r

  unfoldable pub become_follower : ℕ → Raft Cmd State Reply → Raft Cmd State Reply
  unfolding reject_pending adopt_term is_follower
  become_follower term r =
      let r' = record r { role = follower } in
      adopt_term term (if is_follower r.role then r' else reject_pending r')

  -- the log of the candidate is at least as new as this one's
  unfoldable pub up_to_date : VoteRequest → Raft Cmd State Reply → Bool
  unfolding last_term last_index
  up_to_date q r =
      ltb (last_term r) q.last_log_term
      || (nat_beq q.last_log_term (last_term r) && leb (last_index r) q.last_log_index)

  unfoldable pub grants : VoteRequest → Raft Cmd State Reply → Bool
  unfolding free_to_vote up_to_date
  grants q r =
      leb r.current_term q.term && free_to_vote r.voted_for q.candidate_id && up_to_date q r

  unfoldable pub cast_vote : VoteRequest → Raft Cmd State Reply → VoteReply × Raft Cmd State Reply
  unfolding persist_state grants
  cast_vote q r =
      let granted = grants q r in
      (
        record { term = r.current_term; vote_granted = granted },
        if granted then persist_state (record r { voted_for = some q.candidate_id }) else r,
      )

  unfoldable pub handle_vote : VoteRequest → Raft Cmd State Reply → VoteReply × Raft Cmd State Reply
  unfolding cast_vote become_follower
  handle_vote q r = cast_vote q (if ltb r.current_term q.term then become_follower q.term r else r)

  unfoldable pub vote_request : Raft Cmd State Reply → VoteRequest
  vote_request r = record {
    term = r.current_term;
    candidate_id = r.id;
    last_log_index = last_index r;
    last_log_term = last_term r;
  }
