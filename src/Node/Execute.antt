-- ===== src/Node/Execute.antt =====
-- `execute` of store/node.js: a command that is proposed, or forwarded, until an answer is heard. `apply` is
-- what the machine makes of the command. What the replicas and the network do with an attempt is up to the
-- environment: an attempt that is not heard of may have been applied all the same.
use nodejs_k8s.Prelude.{ℕ, zero, suc, ◌+◌, Bool, Option, none, some, if◌then◌else◌}

-- what becomes of one proposal, or of one forwarded command
pub data Fate (E : Type 0) : Type 0 where
  answered unheard undone : Fate E
  refused : E → Fate E

-- what an attempt meets: whether this node leads, and whether it knows the leader among its peers
pub record Attempt (E : Type 0) : Type 0 where
  pub leads : Bool
  pub proposed : Fate E
  pub knows_leader : Bool
  pub forwarded : Fate E

pub data Reply (R E : Type 0) : Type 0 where
  result : R → Reply R E
  error : E → Reply R E
  timed_out : Reply R E

module _ {S R E : Type 0} (apply : S → R × S) where
  unfoldable pub tell : Fate E → S → Option (Reply R E) × S
  tell answered s = (some (result (apply s).0), (apply s).1)
  tell unheard s = (none, (apply s).1)
  tell undone s = (none, s)
  tell (refused e) s = (some (error e), s)

  -- a proposal fails with NOT_LEADER where nothing is heard; then the leader that is known is asked
  unfoldable pub then_forward : Attempt E → Option (Reply R E) × S → Option (Reply R E) × S
  unfolding tell
  then_forward a (some reply, s) = (some reply, s)
  then_forward a (none, s) = if a.knows_leader then tell a.forwarded s else (none, s)

  unfoldable pub attempt : Attempt E → S → Option (Reply R E) × S
  unfolding tell then_forward
  attempt a s = then_forward a (if a.leads then tell a.proposed s else (none, s))

  unfoldable pub attempts : ℕ → ℕ → (ℕ → Attempt E) → S → Reply R E × S
  unfolding attempt
  attempts zero number meets s = (timed_out, s)
  attempts (suc left) number meets s =
      let (heard, t) = attempt (meets number) s in
      elim heard [ some reply ↦ (reply, t) | none ↦ attempts left (suc number) meets t ]

  -- the attempts are numbered from 0 up to `retries`
  unfoldable pub execute : ℕ → (ℕ → Attempt E) → S → Reply R E × S
  unfolding attempts
  execute retries meets s = attempts (retries + 1) 0 meets s
