-- ===== src/Raft/Applied.antt =====
-- The apply loop of store/raft.js (`applyCommitted`) ends with everything that is committed applied,
-- whatever the entries are and whichever of them are missing.
use nodejs_k8s.Prelude.{
  ℕ, zero, suc, ◌+◌, ◌-◌, ◌≤◌, ◌<◌, max, Option, none, some, ◌≡◌, ◌∙◌, refl, arith, ltb, if_ind,
  Bool-cases, inl, inr, nat_eq,
}
use nodejs_k8s.Raft.Types.{LogEntry, Raft}
use nodejs_k8s.Raft.Log.{entry_at, rewrite, save_snapshot}
use nodejs_k8s.Raft.Progress.{
  snapshot_now, take_snapshot, maybe_snapshot, settle, apply_entry, apply_found, apply_next,
  apply_rounds, apply_committed,
}

-- the two replicas have the same two marks
record SameMarks {Cmd State Reply : Type 0} (s t : Raft Cmd State Reply) : Type 0 where
  applied : t.last_applied ≡ s.last_applied
  committed : t.commit_index ≡ s.commit_index

module _ {Cmd State Reply : Type 0} where
  take_snapshot-SameMarks : (r : Raft Cmd State Reply) → SameMarks r (take_snapshot r)
  unfolding take_snapshot snapshot_now rewrite save_snapshot
  take_snapshot-SameMarks r = ground arith

  maybe_snapshot-SameMarks : (r : Raft Cmd State Reply) → SameMarks r (maybe_snapshot r)
  unfolding maybe_snapshot
  maybe_snapshot-SameMarks r =
      if_ind (SameMarks r) (ltb (r.last_applied - r.snapshot_index) r.snapshot_every)
        (record { applied = refl; committed = refl }) (take_snapshot-SameMarks r)

  settle-SameMarks :
      (entry : LogEntry Cmd) (reply : Reply) (r : Raft Cmd State Reply)
      → SameMarks r (settle entry reply r)
  unfolding settle
  settle-SameMarks entry reply r = ground arith

  module _ (apply : Cmd → ℕ → State → Reply × State) where
    apply_entry-SameMarks :
        (entry : LogEntry Cmd) (cmd : Cmd) (r : Raft Cmd State Reply)
        → SameMarks r (apply_entry apply entry cmd r)
    unfolding apply_entry
    apply_entry-SameMarks entry cmd r =
        let (reply, machine') = apply cmd entry.index r.machine in
        let r' = record r { machine = machine' } in
        let a = settle-SameMarks entry reply r' in
        let b = maybe_snapshot-SameMarks (settle entry reply r') in
        record { applied = b.applied ∙ a.applied; committed = b.committed ∙ a.committed }

    apply_found-SameMarks :
        (o : Option (LogEntry Cmd)) (r : Raft Cmd State Reply) → SameMarks r (apply_found apply o r)
    unfolding apply_found
    apply_found-SameMarks none r = record { applied = refl; committed = refl }
    apply_found-SameMarks (some e) r = found e.cmd
      where
        found :
            (o : Option Cmd)
            → SameMarks r (
                let out : Raft Cmd State Reply = elim o [
                  | none ↦ r
                  | some cmd ↦ apply_entry apply e cmd r
                ] in
                out)
        found none = record { applied = refl; committed = refl }
        found (some cmd) = apply_entry-SameMarks e cmd r

    apply_rounds-reaches :
        (n : ℕ) (r : Raft Cmd State Reply)
        → r.commit_index - r.last_applied ≤ n
        → ((apply_rounds apply n r).last_applied ≡ max r.last_applied r.commit_index)
          × ((apply_rounds apply n r).commit_index ≡ r.commit_index)
    unfolding apply_rounds apply_next
    apply_rounds-reaches zero r h = (omega (arith, h), refl)
    apply_rounds-reaches (suc n) r h = elim (Bool-cases (ltb r.last_applied r.commit_index)) [
      | inl more ↦
          let r' = record r { last_applied = r.last_applied + 1 } in
          let a = apply_found-SameMarks (entry_at r' r'.last_applied) r' in
          let before : r.last_applied < r.commit_index = ground (arith, more) in
          let (x, y) =
            apply_rounds-reaches n (apply_next apply r)
              (omega (arith, h, a.applied, a.committed)) in
          rw more (omega (arith, x, a.applied, a.committed, before), y ∙ a.committed)
      | inr done ↦ rw done (ground (arith, done), refl)
    ]

    -- After the loop the last applied index is the commit index, unless it was beyond it at the start,
    -- and the commit index is what it was: the number of rounds, one for each index in between, is
    -- enough, and a missing entry or an entry without a command does not end the loop.
    pub apply_committed-reaches :
        (r : Raft Cmd State Reply)
        → ((apply_committed apply r).last_applied ≡ max r.last_applied r.commit_index)
          × ((apply_committed apply r).commit_index ≡ r.commit_index)
    unfolding apply_committed
    apply_committed-reaches r =
        apply_rounds-reaches (r.commit_index - r.last_applied) r (omega arith)
