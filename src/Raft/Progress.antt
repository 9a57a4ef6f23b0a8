-- ===== src/Raft/Progress.antt =====
-- The apply loop of store/raft.js: `applyCommitted`, `maybeSnapshot` and `takeSnapshot`.
use nodejs_k8s.Prelude.{
  ℕ, zero, suc, ◌+◌, ◌-◌, Option, none, some, [], ◌∷◌, ◌++◌, nat_eq, nat_beq, ltb, if◌then◌else◌,
}
use nodejs_k8s.Prelude.Map
use nodejs_k8s.Raft.Types.{LogEntry, Outcome, settled, not_leader, Raft}
use nodejs_k8s.Raft.Log.{entry_at, save_snapshot, entries_after, rewrite}

-- a waiter is settled with the reply only if its term is that of the entry
unfoldable pub outcome_for : {Reply : Type 0} → ℕ → ℕ → Reply → Outcome Reply
outcome_for waiting term reply = if nat_beq waiting term then settled reply else not_leader

module _ {Cmd State Reply : Type 0} where
  unfoldable pub snapshot_now : LogEntry Cmd → Raft Cmd State Reply → Raft Cmd State Reply
  snapshot_now entry r =
      let r' =
        save_snapshot (record { index = r.last_applied; term = entry.term; state = r.machine }) r in
      rewrite (record r' {
        snapshot_index = r.last_applied;
        snapshot_term = entry.term;
        log = entries_after r.last_applied r.log;
      })

  unfoldable pub take_snapshot : Raft Cmd State Reply → Raft Cmd State Reply
  unfolding snapshot_now
  take_snapshot r = elim (entry_at r r.last_applied) [
    | none ↦ r
    | some entry ↦ snapshot_now entry r
  ]

  unfoldable pub maybe_snapshot : Raft Cmd State Reply → Raft Cmd State Reply
  maybe_snapshot r =
      if ltb (r.last_applied - r.snapshot_index) r.snapshot_every then r else take_snapshot r

  unfoldable pub settle : LogEntry Cmd → Reply → Raft Cmd State Reply → Raft Cmd State Reply
  unfolding outcome_for
  settle entry reply r = elim (Map.get entry.index r.pending) [
    | none ↦ r
    | some waiting ↦ record r {
      pending = Map.delete entry.index r.pending;
      settlements = r.settlements ++ (entry.index, outcome_for waiting entry.term reply) ∷ [];
    }
  ]

  module _ (apply : Cmd → ℕ → State → Reply × State) where
    unfoldable pub apply_entry : LogEntry Cmd → Cmd → Raft Cmd State Reply → Raft Cmd State Reply
    unfolding settle
    apply_entry entry cmd r =
        let (reply, machine') = apply cmd entry.index r.machine in
        maybe_snapshot (settle entry reply (record r { machine = machine' }))

    unfoldable pub apply_found : Option (LogEntry Cmd) → Raft Cmd State Reply → Raft Cmd State Reply
    apply_found none r = r
    apply_found (some entry) r = elim entry.cmd [ none ↦ r | some cmd ↦ apply_entry entry cmd r ]

    -- the body of the loop of `applyCommitted`
    unfoldable pub apply_next : Raft Cmd State Reply → Raft Cmd State Reply
    unfolding apply_found apply_entry
    apply_next r =
        let r' = record r { last_applied = r.last_applied + 1 } in
        apply_found (entry_at r' r'.last_applied) r'

    -- the loop, with as many rounds as there are entries to apply
    unfoldable pub apply_rounds : ℕ → Raft Cmd State Reply → Raft Cmd State Reply
    apply_rounds zero r = r
    apply_rounds (suc n) r =
        let rest = apply_rounds n (apply_next r) in
        if ltb r.last_applied r.commit_index then rest else r

    unfoldable pub apply_committed : Raft Cmd State Reply → Raft Cmd State Reply
    apply_committed r = apply_rounds (r.commit_index - r.last_applied) r
