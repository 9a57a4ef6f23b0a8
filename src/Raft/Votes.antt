-- ===== src/Raft/Votes.antt =====
-- What a replica's vote is worth: it never votes for two candidates in one term, whatever happens
-- between, and its term and vote are on disk whenever a handler returns.
use nodejs_k8s.Prelude.{
  min, not, ◌||◌, ℕ, suc, zero, ◌+◌, ◌-◌, ◌≤◌, false, Option, none, some, List, ◌≡◌, ◌∙◌, refl, sym,
  arith, ltb, if◌then◌else◌, Bool-cases, inl, inr, if_ind, nat_eq,
}
use nodejs_k8s.Raft.Types.{follower, LogEntry, Raft, AppendRequest, AppendReply, SnapshotRequest}
use nodejs_k8s.Raft.Log.{last_index, persist_state, rewrite, save_snapshot, entry_at}
use nodejs_k8s.Raft.Progress.{
  snapshot_now, take_snapshot, maybe_snapshot, settle, apply_entry, apply_found, apply_next,
  apply_rounds, apply_committed,
}
use nodejs_k8s.Raft.Election.{is_follower, reject_pending, adopt_term, become_follower}
use nodejs_k8s.Raft.Following.{
  store_entries, follow, commit_to, accept_entries, handle_append, conflict, install,
  handle_snapshot,
}

-- `t` may follow `s`: terms do not go back, and within a term a vote stays; what is on disk is what is
-- in memory, if it was so.
pub record Follows {Cmd State Reply : Type 0} (s t : Raft Cmd State Reply) : Type 0 where
  pub current_term-le : s.current_term ≤ t.current_term
  pub voted_for-kept :
      (c : ℕ) → s.voted_for ≡ some c → s.current_term ≡ t.current_term → t.voted_for ≡ some c
  pub saved :
      (s.wal.state ≡ record { current_term = s.current_term; voted_for = s.voted_for })
      → t.wal.state ≡ record { current_term = t.current_term; voted_for = t.voted_for }

-- the two replicas have the same term and vote, in memory and on disk
pub record SameVote {Cmd State Reply : Type 0} (s t : Raft Cmd State Reply) : Type 0 where
  pub term : t.current_term ≡ s.current_term
  pub vote : t.voted_for ≡ s.voted_for
  pub disk : t.wal.state ≡ s.wal.state

module _ {Cmd State Reply : Type 0} where
  pub SameVote-Follows : (s t : Raft Cmd State Reply) → SameVote s t → Follows s t
  SameVote-Follows s t e = record {
    current_term-le = omega (arith, e.term);
    voted_for-kept = λ c h _. e.vote ∙ h;
    saved = λ h. e.disk ∙ h ∙ λ i. record { current_term = sym e.term i; voted_for = sym e.vote i };
  }

  pub Follows-trans : {s t u : Raft Cmd State Reply} → Follows s t → Follows t u → Follows s u
  Follows-trans {s} {t} {u} f g = record {
    current_term-le = omega (arith, f.current_term-le, g.current_term-le);
    voted_for-kept = λ c h e.
        g.voted_for-kept c
          (f.voted_for-kept c h (omega (arith, e, f.current_term-le, g.current_term-le)))
          (omega (arith, e, f.current_term-le, g.current_term-le));
    saved = λ h. g.saved (f.saved h);
  }

  adopt_term-Follows : (term : ℕ) (r : Raft Cmd State Reply) → Follows r (adopt_term term r)
  unfolding adopt_term persist_state
  adopt_term-Follows term r = elim (Bool-cases (ltb r.current_term term)) [
    | inl newer ↦ rw newer (record {
      current_term-le = ground (arith, newer);
      voted_for-kept = λ c h e. absurd (ground (arith, newer, e));
      saved = λ h. refl;
    })
    | inr same ↦ rw same (SameVote-Follows r r (record { term = refl; vote = refl; disk = refl }))
  ]

  pub SameVote-trans : {s t u : Raft Cmd State Reply} → SameVote s t → SameVote t u → SameVote s u
  SameVote-trans a b = record {
    term = b.term ∙ a.term;
    vote = b.vote ∙ a.vote;
    disk = b.disk ∙ a.disk;
  }

  take_snapshot-SameVote : (r : Raft Cmd State Reply) → SameVote r (take_snapshot r)
  unfolding take_snapshot snapshot_now rewrite save_snapshot
  take_snapshot-SameVote r = ground arith

  maybe_snapshot-SameVote : (r : Raft Cmd State Reply) → SameVote r (maybe_snapshot r)
  unfolding maybe_snapshot
  maybe_snapshot-SameVote r =
      if_ind (SameVote r) (ltb (r.last_applied - r.snapshot_index) r.snapshot_every)
        (record { term = refl; vote = refl; disk = refl }) (take_snapshot-SameVote r)

  settle-SameVote :
      (entry : LogEntry Cmd) (reply : Reply) (r : Raft Cmd State Reply)
      → SameVote r (settle entry reply r)
  unfolding settle
  settle-SameVote entry reply r = ground arith

  pub become_follower-Follows :
      (term : ℕ) (r : Raft Cmd State Reply) → Follows r (become_follower term r)
  unfolding become_follower reject_pending
  become_follower-Follows term r =
      let r' = record r { role = follower } in
      Follows-trans
        (SameVote-Follows r (if is_follower r.role then r' else reject_pending r') (
          if_ind (SameVote r) (is_follower r.role)
            (record { term = refl; vote = refl; disk = refl })
            (record { term = refl; vote = refl; disk = refl })))
        (adopt_term-Follows term (if is_follower r.role then r' else reject_pending r'))

  module _ (apply : Cmd → ℕ → State → Reply × State) where
    apply_entry-SameVote :
        (entry : LogEntry Cmd) (cmd : Cmd) (r : Raft Cmd State Reply)
        → SameVote r (apply_entry apply entry cmd r)
    unfolding apply_entry
    apply_entry-SameVote entry cmd r =
        let (reply, machine') = apply cmd entry.index r.machine in
        let r' = record r { machine = machine' } in
        let v =
          SameVote-trans (settle-SameVote entry reply r')
            (maybe_snapshot-SameVote (settle entry reply r')) in
        record { term = v.term; vote = v.vote; disk = v.disk }

    apply_next-SameVote : (r : Raft Cmd State Reply) → SameVote r (apply_next apply r)
    unfolding apply_next
    apply_next-SameVote r =
        let r' = record r { last_applied = r.last_applied + 1 } in
        found (entry_at r' r'.last_applied)
      where
        found :
            (o : Option (LogEntry Cmd))
            → SameVote r (apply_found apply o (record r { last_applied = r.last_applied + 1 }))
        found none = unfold apply_found in record { term = refl; vote = refl; disk = refl }
        found (some e) = unfold apply_found in cmd e e.cmd
          where
            cmd :
                (e : LogEntry Cmd) (o : Option Cmd)
                → SameVote r (
                    let t : Raft Cmd State Reply = elim o [
                      | none ↦ record r { last_applied = r.last_applied + 1 }
                      | some c ↦
                          apply_entry apply e c (record r { last_applied = r.last_applied + 1 })
                    ] in
                    t)
            cmd e none = (record { term = refl; vote = refl; disk = refl })
            cmd e (some c) =
                let v = apply_entry-SameVote e c (record r { last_applied = r.last_applied + 1 }) in
                record { term = v.term; vote = v.vote; disk = v.disk }

    apply_rounds-SameVote : (n : ℕ) (r : Raft Cmd State Reply) → SameVote r (apply_rounds apply n r)
    unfolding apply_rounds
    apply_rounds-SameVote zero r = (record { term = refl; vote = refl; disk = refl })
    apply_rounds-SameVote (suc n) r =
        if_ind (SameVote r) (ltb r.last_applied r.commit_index)
          (SameVote-trans (apply_next-SameVote r) (apply_rounds-SameVote n (apply_next apply r)))
          (record { term = refl; vote = refl; disk = refl })

    pub apply_committed-SameVote : (r : Raft Cmd State Reply) → SameVote r (apply_committed apply r)
    unfolding apply_committed
    apply_committed-SameVote r = apply_rounds-SameVote (r.commit_index - r.last_applied) r

    -- What each handler does to the term and the vote.
    commit_to-SameVote : (n : ℕ) (r : Raft Cmd State Reply) → SameVote r (commit_to apply n r)
    unfolding commit_to
    commit_to-SameVote n r =
        let r' = record r { commit_index = min n (last_index r) } in
        let v = apply_committed-SameVote r' in
        if_ind (SameVote r) (ltb r.commit_index n)
          (record { term = v.term; vote = v.vote; disk = v.disk })
          (record { term = refl; vote = refl; disk = refl })

    store_entries-SameVote :
        (es : List (LogEntry Cmd)) (r : Raft Cmd State Reply) → SameVote r (store_entries es r)
    unfolding store_entries rewrite
    store_entries-SameVote es r = ground arith

    follow-Follows : (term id : ℕ) (r : Raft Cmd State Reply) → Follows r (follow term id r)
    unfolding follow
    follow-Follows term id r =
        let r' =
          if ltb r.current_term term || not (is_follower r.role)
          then become_follower term r
          else r in
        let f =
          if_ind (Follows r) (ltb r.current_term term || not (is_follower r.role))
            (become_follower-Follows term r)
            (SameVote-Follows r r (record { term = refl; vote = refl; disk = refl })) in
        record {
          current_term-le = f.current_term-le;
          voted_for-kept = f.voted_for-kept;
          saved = f.saved;
        }

    pub handle_append-Follows :
        (q : AppendRequest Cmd) (r : Raft Cmd State Reply) → Follows r (handle_append apply q r).1
    unfolding handle_append accept_entries
    handle_append-Follows q r =
        if_ind (λ (o : AppendReply × Raft Cmd State Reply). Follows r o.1)
          (ltb q.term r.current_term)
          (SameVote-Follows r r (record { term = refl; vote = refl; disk = refl }))
          (found (conflict q (follow q.term q.leader_id r)))
      where
        r' : Raft Cmd State Reply
        r' = follow q.term q.leader_id r

        found :
            (o : Option ℕ)
            → Follows r
                (let out : AppendReply × Raft Cmd State Reply = elim o [
                  | none ↦ accept_entries apply q r'
                  | some at ↦ (
                    record {
                      term = r'.current_term;
                      success = false;
                      conflict_index = some at;
                      match_index = none;
                    },
                    r',
                  )
                ] in
                  out).1
        found none = Follows-trans (follow-Follows q.term q.leader_id r) (
            SameVote-Follows r' _ (
              SameVote-trans (store_entries-SameVote q.entries r')
                (commit_to-SameVote q.leader_commit (store_entries q.entries r'))))
        found (some at) = follow-Follows q.term q.leader_id r

    pub handle_snapshot-Follows :
        (q : SnapshotRequest State) (r : Raft Cmd State Reply) → Follows r (handle_snapshot q r).1
    unfolding handle_snapshot install rewrite save_snapshot
    handle_snapshot-Follows q r =
        let f = become_follower-Follows q.term r in
        if_ind (λ (o : AppendReply × Raft Cmd State Reply). Follows r o.1)
          (ltb q.term r.current_term)
          (SameVote-Follows r r (record { term = refl; vote = refl; disk = refl }))
          (record {
            current_term-le = f.current_term-le;
            voted_for-kept = f.voted_for-kept;
            saved = f.saved;
          })
