-- ===== src/Raft/Leads.antt =====
-- What each handler and timer of store/raft.js does to a replica's term and vote, on the side of the
-- voters, the candidates and the leaders.
use nodejs_k8s.Prelude.{
  ℕ, ◌+◌, ◌-◌, max, true, not, ◌&&◌, ◌||◌, Option, none, some, List, [], ◌∷◌, ◌≡◌, refl, ap, arith,
  nat_beq, ltb, leb, if◌then◌else◌, Bool-cases, inl, inr, if_ind, nat_eq,
}
use nodejs_k8s.Prelude.Map
use nodejs_k8s.Prelude.Map.{Map}
use nodejs_k8s.Raft.Types.{Raft, RaftSnapshot, VoteRequest, VoteReply, AppendReply, snapshot}
use nodejs_k8s.Raft.Log.{persist_state, last_index, entry_at, quorum, wal_append}
use nodejs_k8s.Raft.Progress.{apply_committed}
use nodejs_k8s.Raft.Election.{
  is_leader, is_candidate, become_follower, free_to_vote, grants, cast_vote, handle_vote,
}
use nodejs_k8s.Raft.Leading.{
  Sends, send_snapshot, replicate_to, replicate_all, replicate, advance_commit, appended,
  append_local, propose, take_lead, become_leader, stand, start_election, handle_vote_reply,
  handle_append_reply, handle_snapshot_reply, newest_committable, get_or, is_none,
}
use nodejs_k8s.Raft.Steps.{proposed}
use nodejs_k8s.Raft.Votes.{
  Follows, SameVote, SameVote-Follows, SameVote-trans, Follows-trans, become_follower-Follows,
  apply_committed-SameVote,
}

module _ {Cmd State Reply : Type 0} (apply : Cmd → ℕ → State → Reply × State) (noop : Cmd) where
  pub Follows-refl : (r : Raft Cmd State Reply) → Follows r r
  Follows-refl r = SameVote-Follows r r (record { term = refl; vote = refl; disk = refl })

  pub free_to_vote-same : (c id : ℕ) (v : Option ℕ) → v ≡ some c → free_to_vote v id ≡ true → id ≡ c
  unfolding free_to_vote
  free_to_vote-same c id none h e = absurd (ground (arith, h))
  free_to_vote-same c id (some c') h e = ground (arith, h, e)

  pub grants-free :
      (q : VoteRequest) (r : Raft Cmd State Reply)
      → grants q r ≡ true
      → free_to_vote r.voted_for q.candidate_id ≡ true
  unfolding grants
  grants-free q r h = ground (arith, h)

  cast_vote-Follows : (q : VoteRequest) (r : Raft Cmd State Reply) → Follows r (cast_vote q r).1
  unfolding cast_vote persist_state
  cast_vote-Follows q r = elim (Bool-cases (grants q r)) [
    | inl yes' ↦ rw yes' (record {
      current_term-le = omega arith;
      voted_for-kept = λ c h e.
          ap some (free_to_vote-same c q.candidate_id r.voted_for h (grants-free q r yes'));
      saved = λ h. refl;
    })
    | inr no' ↦ rw no' (Follows-refl r)
  ]

  pub handle_vote-Follows :
      (q : VoteRequest) (r : Raft Cmd State Reply) → Follows r (handle_vote q r).1
  unfolding handle_vote
  handle_vote-Follows q r =
      let r' = if ltb r.current_term q.term then become_follower q.term r else r in
      Follows-trans
        (if_ind (Follows r) (ltb r.current_term q.term) (become_follower-Follows q.term r)
          (Follows-refl r))
        (cast_vote-Follows q r')

  SameVote-refl : (r : Raft Cmd State Reply) → SameVote r r
  SameVote-refl r = record { term = refl; vote = refl; disk = refl }

  send_snapshot-SameVote :
      (peer : ℕ) (r : Raft Cmd State Reply) → SameVote r (send_snapshot peer r).0
  unfolding send_snapshot
  send_snapshot-SameVote peer r = found r.wal.snapshot
    where
      found :
          (o : Option (RaftSnapshot State))
          → SameVote r
              (let out : Raft Cmd State Reply × Sends Cmd State = elim o [
                | none ↦ (record r { next_index = Map.set peer 1 r.next_index }, [])
                | some snap ↦ (
                  r,
                  (
                    peer,
                    snapshot (record { term = r.current_term; leader_id = r.id; snapshot = snap }),
                  )
                      ∷ [],
                )
              ] in
                out).0
      found none = record { term = refl; vote = refl; disk = refl }
      found (some snap) = SameVote-refl r

  replicate_to-SameVote : (peer : ℕ) (r : Raft Cmd State Reply) → SameVote r (replicate_to peer r).0
  unfolding replicate_to send_snapshot
  replicate_to-SameVote peer r =
      let next = get_or (last_index r + 1) peer r.next_index in
      let prev = entry_at r (next - 1) in
      if_ind (λ (o : Raft Cmd State Reply × Sends Cmd State). SameVote r o.0)
        (ltb (next - 1) r.snapshot_index || (is_none prev && not (nat_beq (next - 1) 0)))
        (send_snapshot-SameVote peer r) (SameVote-refl r)

  replicate_all-SameVote :
      (peers : List ℕ) (r : Raft Cmd State Reply) → SameVote r (replicate_all peers r).0
  unfolding replicate_all
  replicate_all-SameVote [] r = record { term = refl; vote = refl; disk = refl }
  replicate_all-SameVote (peer ∷ peers) r =
      SameVote-trans (replicate_to-SameVote peer r)
        (replicate_all-SameVote peers (replicate_to peer r).0)

  pub replicate-SameVote : (r : Raft Cmd State Reply) → SameVote r (replicate r).0
  unfolding replicate
  replicate-SameVote r =
      if_ind (λ (o : Raft Cmd State Reply × Sends Cmd State). SameVote r o.0)
        (not (is_leader r.role) || r.stopped) (record { term = refl; vote = refl; disk = refl })
        (replicate_all-SameVote r.peers r)

  advance_commit-SameVote : (r : Raft Cmd State Reply) → SameVote r (advance_commit apply r)
  unfolding advance_commit
  advance_commit-SameVote r = found (newest_committable (last_index r) r)
    where
      found :
          (o : Option ℕ)
          → SameVote r (
              let out : Raft Cmd State Reply = elim o [
                | none ↦ r
                | some n ↦ apply_committed apply (record r { commit_index = n })
              ] in
              out)
      found none = SameVote-refl r
      found (some n) =
          let v = apply_committed-SameVote apply (record r { commit_index = n }) in
          record { term = v.term; vote = v.vote; disk = v.disk }

  append_local-SameVote :
      (cmd : Option Cmd) (r : Raft Cmd State Reply) → SameVote r (append_local apply cmd r).0
  unfolding append_local appended wal_append
  append_local-SameVote cmd r =
      let r' = appended apply cmd r in
      let v = apply_committed-SameVote apply (record r' { commit_index = last_index r + 1 }) in
      let w = replicate-SameVote r' in
      if_ind (λ (o : Raft Cmd State Reply × Sends Cmd State). SameVote r o.0)
        (nat_beq (quorum r') 1) (record { term = v.term; vote = v.vote; disk = v.disk })
        (record { term = w.term; vote = w.vote; disk = w.disk })

  become_leader-SameVote : (r : Raft Cmd State Reply) → SameVote r (become_leader apply noop r).0
  unfolding become_leader take_lead
  become_leader-SameVote r =
      let v = append_local-SameVote (some noop) (take_lead apply r) in
      let w =
        SameVote-trans v
          (replicate-SameVote (append_local apply (some noop) (take_lead apply r)).0) in
      if_ind (λ (o : Raft Cmd State Reply × Sends Cmd State). SameVote r o.0) (is_leader r.role)
        (SameVote-refl r) (record { term = w.term; vote = w.vote; disk = w.disk })

  become_leader-Follows : (r : Raft Cmd State Reply) → Follows r (become_leader apply noop r).0
  become_leader-Follows r =
      SameVote-Follows r (become_leader apply noop r).0 (become_leader-SameVote r)

  stand-Follows : (r : Raft Cmd State Reply) → Follows r (stand apply r)
  unfolding stand persist_state
  stand-Follows r = record {
    current_term-le = omega arith;
    voted_for-kept = λ c h e. absurd (omega (arith, e));
    saved = λ h. refl;
  }

  pub start_election-Follows :
      (r : Raft Cmd State Reply) → Follows r (start_election apply noop r).0
  unfolding start_election
  start_election-Follows r =
      let r' = stand apply r in
      let P = λ (o : Raft Cmd State Reply × Sends Cmd State). Follows r o.0 in
      if_ind P r.stopped (Follows-refl r) (
        if_ind P (leb (quorum r') 1) (Follows-trans (stand-Follows r) (become_leader-Follows r'))
          (stand-Follows r))

  pub handle_vote_reply-Follows :
      (term votes : ℕ) (reply : VoteReply) (r : Raft Cmd State Reply)
      → Follows r (handle_vote_reply apply noop term votes reply r).1.0
  unfolding handle_vote_reply
  handle_vote_reply-Follows term votes reply r =
      let P = λ (o : ℕ × (Raft Cmd State Reply × Sends Cmd State)). Follows r o.1.0 in
      if_ind P (not (is_candidate r.role) || not (nat_beq r.current_term term)) (Follows-refl r) (
        if_ind P (ltb r.current_term reply.term) (become_follower-Follows reply.term r) (
          if_ind P (not reply.vote_granted) (Follows-refl r) (
            if_ind (λ (o : Raft Cmd State Reply × Sends Cmd State). Follows r o.0)
              (leb (quorum r) (votes + 1)) (become_leader-Follows r) (Follows-refl r))))

  advanced-Follows :
      (match_index next_index : Map ℕ ℕ) (r : Raft Cmd State Reply)
      → Follows r
          (advance_commit apply (record r { match_index = match_index; next_index = next_index }))
  advanced-Follows match_index next_index r =
      let r' = record r { match_index = match_index; next_index = next_index } in
      let v = advance_commit-SameVote r' in
      SameVote-Follows r (advance_commit apply r')
        (record { term = v.term; vote = v.vote; disk = v.disk })

  pub handle_append_reply-Follows :
      (peer next count : ℕ) (reply : AppendReply) (r : Raft Cmd State Reply)
      → Follows r (handle_append_reply apply peer next count reply r)
  unfolding handle_append_reply
  handle_append_reply-Follows peer next count reply r =
      let matched = next - 1 + count in
      if_ind (Follows r) (not (is_leader r.role)) (Follows-refl r) (
        if_ind (Follows r) (ltb r.current_term reply.term) (become_follower-Follows reply.term r) (
          if_ind (Follows r) reply.success
            (advanced-Follows
              (Map.set peer (max (get_or 0 peer r.match_index) matched) r.match_index)
              (Map.set peer (matched + 1) r.next_index) r)
            (SameVote-Follows r _ (record { term = refl; vote = refl; disk = refl }))))

  pub handle_snapshot_reply-Follows :
      (peer index : ℕ) (reply : AppendReply) (r : Raft Cmd State Reply)
      → Follows r (handle_snapshot_reply apply peer index reply r)
  unfolding handle_snapshot_reply
  handle_snapshot_reply-Follows peer index reply r =
      if_ind (Follows r) (not (is_leader r.role)) (Follows-refl r) (
        if_ind (Follows r) (ltb r.current_term reply.term) (become_follower-Follows reply.term r)
          (SameVote-Follows r _ (record { term = refl; vote = refl; disk = refl })))

  pub proposed-Follows :
      (cmd : Cmd) (r : Raft Cmd State Reply) → Follows r (proposed (propose apply cmd r) r)
  unfolding propose proposed
  proposed-Follows cmd r =
      if_ind (λ (o : Option (Raft Cmd State Reply × Sends Cmd State)). Follows r (proposed o r))
        (is_leader r.role) (SameVote-Follows r _ (append_local-SameVote (some cmd) r))
        (Follows-refl r)
