-- ===== src/Raft/Commit.antt =====
-- What store/raft.js commits (`advanceCommit`): the newest entry of the leader's own term that a
-- majority holds, and nothing when there is none.
use nodejs_k8s.Prelude.{
  ℕ, zero, suc, ◌≤◌, ◌<◌, true, some, ◌≡◌, ◌∙◌, refl, sym, ap, arith, ltb, nat_beq, Bool-cases,
  Option-cases, inl, inr, ◌⊎◌, nat_eq,
}
use nodejs_k8s.Raft.Types.{LogEntry, Raft}
use nodejs_k8s.Raft.Log.{entry_at, last_index, quorum}
use nodejs_k8s.Raft.Leading.{replicas_at, is_committable, newest_committable, advance_commit}
use nodejs_k8s.Raft.Applied.{apply_committed-reaches}

-- index `n` of the log has an entry of the present term, and a quorum of replicas holds it
pub record IsHeld {Cmd State Reply : Type 0} (n : ℕ) (r : Raft Cmd State Reply) : Type 0 where
  pub entry : LogEntry Cmd
  pub found : entry_at r n ≡ some entry
  pub current : entry.term ≡ r.current_term
  pub majority : quorum r ≤ replicas_at n r

module _ {Cmd State Reply : Type 0} where
  is_committable-IsHeld :
      (n : ℕ) (r : Raft Cmd State Reply) → is_committable n r ≡ true → IsHeld n r
  unfolding is_committable
  is_committable-IsHeld n r h = elim (Option-cases (entry_at r n)) [
    | inl none' ↦ absurd (ground (arith, h, none'))
    | inr (e, some') ↦ record {
      entry = e;
      found = some';
      current = ground (arith, h, some');
      majority = ground (arith, h, some');
    }
  ]

  IsHeld-is_committable :
      (n : ℕ) (r : Raft Cmd State Reply) → IsHeld n r → is_committable n r ≡ true
  unfolding is_committable
  IsHeld-is_committable n r h = ground (arith, h.found, h.current, h.majority)

  newest-some :
      (k : ℕ) (r : Raft Cmd State Reply) (n : ℕ)
      → newest_committable k r ≡ some n
      → (n ≤ k) × ((r.commit_index < n) × (is_committable n r ≡ true))
  unfolding newest_committable
  newest-some zero r n h = absurd (ground (arith, h))
  newest-some (suc k) r n h = elim (Bool-cases (ltb r.commit_index (suc k))) [
    | inr old ↦ absurd (ground (arith, h, old))
    | inl new ↦ elim (Bool-cases (is_committable (suc k) r)) [
      | inl yes' ↦
          let here : suc k ≡ n = ground (arith, h, new, yes') in
          (
            omega (arith, here),
            (ground (arith, new, here), ap (λ m. is_committable m r) (sym here) ∙ yes'),
          )
      | inr no' ↦
          let (a, b) = newest-some k r n (ground (arith, h, new, no')) in (omega (arith, a), b)
    ]
  ]

  newest-above :
      (k : ℕ) (r : Raft Cmd State Reply) (m : ℕ)
      → m ≤ k
      → r.commit_index < m
      → is_committable m r ≡ true
      → (n : ℕ) × ((newest_committable k r ≡ some n) × (m ≤ n))
  unfolding newest_committable
  newest-above zero r m h h' c = absurd (omega (arith, h, h'))
  newest-above (suc k) r m h h' c = elim (Bool-cases (is_committable (suc k) r)) [
    | inl yes' ↦ (suc k, (ground (arith, h', yes', h), h))
    | inr no' ↦
        let below : m ≤ k = elim (Bool-cases (nat_beq m (suc k))) [
          | inl same ↦ absurd (ground (arith, same, c, no'))
          | inr other ↦ ground (arith, other, h)
        ] in
        let (n, (e, le)) = newest-above k r m below h' c in
        (n, (ground (arith, e, no', below, h'), le))
  ]

  module _ (apply : Cmd → ℕ → State → Reply × State) where
    -- The commit index does not go back; and where it moves, it moves to an index of the log whose
    -- entry is of the leader's own term and is held by at least a quorum.
    pub advance_commit-quorum :
        (r : Raft Cmd State Reply)
        → (r.commit_index ≤ (advance_commit apply r).commit_index)
          × (((advance_commit apply r).commit_index ≡ r.commit_index)
              ⊎ (((advance_commit apply r).commit_index ≤ last_index r)
                  × IsHeld (advance_commit apply r).commit_index r))
    unfolding advance_commit last_index
    advance_commit-quorum r = elim (Option-cases (newest_committable (last_index r) r)) [
      | inl none' ↦ rw (advance_commit, none') (omega arith, inl refl)
      | inr (n, some') ↦
          let (le, (new, ok)) = newest-some (last_index r) r n some' in
          let (_, same) = apply_committed-reaches apply (record r { commit_index = n }) in
          rw (advance_commit, some')
            (
              omega (arith, same, new),
              inr (
                omega (arith, same, le),
                is_committable-IsHeld _ r (ap (λ m. is_committable m r) same ∙ ok),
              ),
            )
    ]

    -- Every index of the log whose entry is of the leader's term and is held by a quorum is committed
    -- when the function returns, and if it was not before, it is applied as well.
    pub advance_commit_complete :
        (m : ℕ) (r : Raft Cmd State Reply)
        → m ≤ last_index r
        → IsHeld m r
        → (m ≤ (advance_commit apply r).commit_index)
          × ((m ≤ (advance_commit apply r).last_applied) ⊎ (m ≤ r.commit_index))
    unfolding advance_commit
    advance_commit_complete m r h c = elim (Bool-cases (ltb r.commit_index m)) [
      | inl new ↦
          let (n, (e, le)) =
            newest-above (last_index r) r m h (ground (arith, new)) (IsHeld-is_committable m r c) in
          let (applied, same) = apply_committed-reaches apply (record r { commit_index = n }) in
          rw (advance_commit, e) (omega (arith, same, le), inl (omega (arith, applied, le)))
      | inr old ↦
          let (le, _) = advance_commit-quorum r in
          let low : m ≤ r.commit_index = ground (arith, old) in (omega (arith, le, low), inr low)
    ]
