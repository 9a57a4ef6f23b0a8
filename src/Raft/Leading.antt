-- ===== src/Raft/Leading.antt =====
-- What a candidate and a leader do in store/raft.js: `startElection`, `becomeLeader`, `appendLocal`,
-- `propose`, `replicate`, `sendSnapshot`, `advanceCommit`, and the replies to what they send. A message
-- is returned beside the replica, with the peer that it goes to; sending it may lose it.
use nodejs_k8s.Prelude.{
  ℕ, zero, suc, ◌+◌, ◌-◌, max, Bool, true, false, not, ◌&&◌, ◌||◌, Option, none, some, List, [],
  ◌∷◌, ◌++◌, map, nat_eq, nat_beq, ltb, leb, filter, length, if◌then◌else◌,
}
use nodejs_k8s.Prelude.Map
use nodejs_k8s.Prelude.Map.{Map}
use nodejs_k8s.Raft.Types.{
  candidate, leader, LogEntry, Raft, VoteReply, AppendRequest, AppendReply, Message, vote, append,
  snapshot,
}
use nodejs_k8s.Raft.Log.{last_index, entry_at, quorum, persist_state, wal_append}
use nodejs_k8s.Raft.Progress.{apply_committed}
use nodejs_k8s.Raft.Election.{is_leader, is_candidate, become_follower, vote_request}

-- `m.get(k) ?? d`
unfoldable pub get_or : ℕ → ℕ → Map ℕ ℕ → ℕ
get_or d k m = elim (Map.get k m) [ none ↦ d | some v ↦ v ]

abbrev pub Sends : Type 0 → Type 0 → Type 0
Sends Cmd State = List (ℕ × Message Cmd State)

term_of : {Cmd : Type 0} → ℕ → Option (LogEntry Cmd) → ℕ
term_of default none = default
term_of default (some e) = e.term

unfoldable pub is_none : {Cmd : Type 0} → Option (LogEntry Cmd) → Bool
is_none none = true
is_none (some e) = false

module _ {Cmd State Reply : Type 0} where
  unfoldable pub send_snapshot : ℕ → Raft Cmd State Reply → Raft Cmd State Reply × Sends Cmd State
  send_snapshot peer r = elim r.wal.snapshot [
    | none ↦ (record r { next_index = Map.set peer 1 r.next_index }, [])
    | some snap ↦ (
      r,
      (peer, snapshot (record { term = r.current_term; leader_id = r.id; snapshot = snap })) ∷ [],
    )
  ]

  unfoldable pub append_request : ℕ → Raft Cmd State Reply → AppendRequest Cmd
  unfolding term_of
  append_request next r = record {
    term = r.current_term;
    leader_id = r.id;
    prev_log_index = next - 1;
    prev_log_term =
        if nat_beq (next - 1) 0 then 0 else term_of r.snapshot_term (entry_at r (next - 1));
    entries = filter (λ (e : LogEntry Cmd). leb next e.index) r.log;
    leader_commit = r.commit_index;
  }

  -- one round of the loop of `replicate`
  unfoldable pub replicate_to : ℕ → Raft Cmd State Reply → Raft Cmd State Reply × Sends Cmd State
  unfolding is_none
  replicate_to peer r =
      let next = get_or (last_index r + 1) peer r.next_index in
      let prev = entry_at r (next - 1) in
      if ltb (next - 1) r.snapshot_index || (is_none prev && not (nat_beq (next - 1) 0))
      then send_snapshot peer r
      else (r, (peer, append (append_request next r)) ∷ [])

  unfoldable pub replicate_all :
      List ℕ → Raft Cmd State Reply → Raft Cmd State Reply × Sends Cmd State
  replicate_all [] r = (r, [])
  replicate_all (peer ∷ peers) r =
      let (r', first) = replicate_to peer r in
      let (r'', later) = replicate_all peers r' in (r'', first ++ later)

  unfoldable pub replicate : Raft Cmd State Reply → Raft Cmd State Reply × Sends Cmd State
  replicate r = if not (is_leader r.role) || r.stopped then (r, []) else replicate_all r.peers r

  unfoldable pub replicas_at : ℕ → Raft Cmd State Reply → ℕ
  replicas_at n r = 1 + length (filter (λ (p : ℕ × ℕ). leb n p.1) r.match_index)

  -- the test of `advanceCommit`: an entry of this term that a majority holds
  unfoldable pub is_committable : ℕ → Raft Cmd State Reply → Bool
  is_committable n r = elim (entry_at r n) [
    | none ↦ false
    | some e ↦ nat_beq e.term r.current_term && leb (quorum r) (replicas_at n r)
  ]

  -- the loop of `advanceCommit`, from `n` down to the commit index
  unfoldable pub newest_committable : ℕ → Raft Cmd State Reply → Option ℕ
  newest_committable zero r = none
  newest_committable (suc n) r =
      let rest = newest_committable n r in
      if ltb r.commit_index (suc n)
      then (if is_committable (suc n) r then some (suc n) else rest)
      else none

  module _ (apply : Cmd → ℕ → State → Reply × State) where
    unfoldable pub advance_commit : Raft Cmd State Reply → Raft Cmd State Reply
    advance_commit r = elim (newest_committable (last_index r) r) [
      | none ↦ r
      | some n ↦ apply_committed apply (record r { commit_index = n })
    ]

    -- the entry that `appendLocal` makes, with the caller's promise waiting on its index
    unfoldable pub appended : Option Cmd → Raft Cmd State Reply → Raft Cmd State Reply
    unfolding wal_append
    appended cmd r =
        let entry : LogEntry Cmd = record {
          term = r.current_term;
          index = last_index r + 1;
          cmd = cmd;
        } in
        wal_append (entry ∷ []) (record r {
          log = r.log ++ entry ∷ [];
          pending = Map.set (last_index r + 1) r.current_term r.pending;
        })

    unfoldable pub append_local :
        Option Cmd → Raft Cmd State Reply → Raft Cmd State Reply × Sends Cmd State
    append_local cmd r =
        let r' = appended cmd r in
        if nat_beq (quorum r') 1
        then (apply_committed apply (record r' { commit_index = last_index r + 1 }), [])
        else replicate r'

    -- `none` is the rejection with `NOT_LEADER`
    unfoldable pub propose :
        Cmd → Raft Cmd State Reply → Option (Raft Cmd State Reply × Sends Cmd State)
    propose cmd r = if is_leader r.role then some (append_local (some cmd) r) else none

    unfoldable pub take_lead : Raft Cmd State Reply → Raft Cmd State Reply
    take_lead r = record r {
      role = leader;
      leader_id = some r.id;
      next_index = map (λ peer. (peer, last_index r + 1)) r.peers;
      match_index = map (λ peer. (peer, 0)) r.peers;
    }

    -- `noop` is the command `{ op: 'noop' }`
    unfoldable pub become_leader :
        Cmd → Raft Cmd State Reply → Raft Cmd State Reply × Sends Cmd State
    become_leader noop r =
        if is_leader r.role
        then (r, [])
        else (let (r', first) = append_local (some noop) (take_lead r) in
            let (r'', later) = replicate r' in (r'', first ++ later))

    unfoldable pub stand : Raft Cmd State Reply → Raft Cmd State Reply
    unfolding persist_state
    stand r = persist_state (record r {
      role = candidate;
      current_term = r.current_term + 1;
      voted_for = some r.id;
      leader_id = none;
    })

    -- the replica starts an election; its own vote is the first
    unfoldable pub start_election :
        Cmd → Raft Cmd State Reply → Raft Cmd State Reply × Sends Cmd State
    start_election noop r =
        let r' = stand r in
        if r.stopped
        then (r, [])
        else if leb (quorum r') 1
        then become_leader noop r'
        else (r', map (λ peer. (peer, vote (vote_request r'))) r'.peers)

    -- the reply to a request that was sent in `term`, with the votes that the election has so far
    unfoldable pub handle_vote_reply :
        Cmd
        → ℕ
        → ℕ
        → VoteReply
        → Raft Cmd State Reply
        → ℕ × (Raft Cmd State Reply × Sends Cmd State)
    handle_vote_reply noop term votes reply r =
        if not (is_candidate r.role) || not (nat_beq r.current_term term)
        then (votes, (r, []))
        else if ltb r.current_term reply.term
        then (votes, (become_follower reply.term r, []))
        else if not reply.vote_granted
        then (votes, (r, []))
        else (votes + 1, if leb (quorum r) (votes + 1) then become_leader noop r else (r, []))

    -- the reply to an append that was sent for the entries from `next` on
    unfoldable pub handle_append_reply :
        ℕ → ℕ → ℕ → AppendReply → Raft Cmd State Reply → Raft Cmd State Reply
    handle_append_reply peer next count reply r =
        let matched = next - 1 + count in
        if not (is_leader r.role)
        then r
        else if ltb r.current_term reply.term
        then become_follower reply.term r
        else if reply.success
        then (advance_commit (record r {
          match_index = Map.set peer (max (get_or 0 peer r.match_index) matched) r.match_index;
          next_index = Map.set peer (matched + 1) r.next_index;
        }))
        else (record r {
          next_index =
              Map.set peer (max 1 (elim reply.conflict_index [ none ↦ next - 1 | some i ↦ i ]))
                r.next_index;
        })

    unfoldable pub handle_snapshot_reply :
        ℕ → ℕ → AppendReply → Raft Cmd State Reply → Raft Cmd State Reply
    handle_snapshot_reply peer index reply r =
        if not (is_leader r.role)
        then r
        else if ltb r.current_term reply.term
        then become_follower reply.term r
        else (record r {
          match_index = Map.set peer index r.match_index;
          next_index = Map.set peer (index + 1) r.next_index;
        })
