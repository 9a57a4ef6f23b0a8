-- ===== src/Node/Swaps.antt =====
-- A swap that the node of store/node.js retries takes effect once at most.
use mathlib.Core.Path.{subst}
use nodejs_k8s.Prelude.{
  ℕ, zero, suc, ◌+◌, Bool, true, Option, none, some, ◌≡◌, ◌≢◌, ◌⊎◌, inl, inr, ◌∙◌, refl, ap, arith,
  Text, Bool-cases, Option-cases, nat_beq,
}
use nodejs_k8s.Mvcc.Types.{Codec, Store, Result}
use nodejs_k8s.Mvcc.Compare.{CommandValue}
use nodejs_k8s.Mvcc.Batch.{apply_txn, WriteReply}
use nodejs_k8s.Mvcc.Swap.{swap, mod_revision_of, swap-wins, swap-loses, swap-race}
use nodejs_k8s.Mvcc.Valid.{IsValid}
use nodejs_k8s.Node.Execute.{
  Fate, answered, unheard, undone, refused, Attempt, Reply, result, error, timed_out, tell,
  then_forward, attempt, attempts, execute,
}

-- the command changes nothing when it is applied again
unfoldable pub IsOnce : {S R : Type 0} → (S → R × S) → S → Type 0
IsOnce apply s = (apply (apply s).1).1 ≡ (apply s).1

-- a swap as the machine's command
unfoldable pub apply_swap :
    Codec → Text → ℕ → CommandValue → Store → (Bool × Result WriteReply) × Store
apply_swap c key read value s =
    let out = apply_txn c (swap key read value) s in ((out.0, out.1.0), out.1.1)

-- What is true of a reply and the state it leaves, of a command that takes `s` to `u` and answers `first`, and
-- `again` if it is repeated: an answer of the machine comes after the command was applied.
unfoldable pub IsSettled : {S R E : Type 0} → S → S → R → R → Reply R E → S → Type 0
IsSettled s u first again (result r) t = (t ≡ u) × ((r ≡ first) ⊎ (r ≡ again))
IsSettled s u first again (error e) t = (t ≡ s) ⊎ (t ≡ u)
IsSettled s u first again timed_out t = (t ≡ s) ⊎ (t ≡ u)

module _ {S R : Type 0} (E : Type 0) (apply : S → R × S) (s : S) (once : IsOnce apply s) where
  Settled : Reply R E → S → Type 0
  Settled reply t = IsSettled s (apply s).1 (apply s).0 (apply (apply s).1).0 reply t

  -- the command was applied or not
  Reached : S → Type 0
  Reached t = (t ≡ s) ⊎ (t ≡ (apply s).1)

  Fits : Option (Reply R E) × S → Type 0
  Fits (none, t) = Reached t
  Fits (some reply, t) = Settled reply t

  applied : (t : S) → Reached t → (apply t).1 ≡ (apply s).1
  unfolding Reached IsOnce
  applied t (inl start) = ap (λ v. (apply v).1) start
  applied t (inr done) = ap (λ v. (apply v).1) done ∙ once

  answer : (t : S) → Reached t → ((apply t).0 ≡ (apply s).0) ⊎ ((apply t).0 ≡ (apply (apply s).1).0)
  unfolding Reached
  answer t (inl start) = inl (ap (λ v. (apply v).0) start)
  answer t (inr done) = inr (ap (λ v. (apply v).0) done)

  tell-Fits : (f : Fate E) (t : S) → Reached t → Fits (tell apply f t)
  unfolding tell Fits Settled IsSettled Reached
  tell-Fits answered t h = (applied t h, answer t h)
  tell-Fits unheard t h = inr (applied t h)
  tell-Fits undone t h = h
  tell-Fits (refused e) t h = h

  then_forward-Fits :
      (a : Attempt E) (out : Option (Reply R E) × S) → Fits out → Fits (then_forward apply a out)
  unfolding then_forward Fits
  then_forward-Fits a (some reply, t) h = h
  then_forward-Fits a (none, t) h = elim (Bool-cases a.knows_leader) [
    | inl known ↦ rw (then_forward, known) (tell-Fits a.forwarded t h)
    | inr unknown ↦ rw (then_forward, unknown) h
  ]

  attempt-Fits : (a : Attempt E) (t : S) → Reached t → Fits (attempt apply a t)
  unfolding attempt Fits
  attempt-Fits a t h = elim (Bool-cases a.leads) [
    | inl leads ↦
        rw (attempt, leads)
          (then_forward-Fits a (tell apply a.proposed t) (tell-Fits a.proposed t h))
    | inr follows ↦ rw (attempt, follows) (then_forward-Fits a (none, t) h)
  ]

  Fits-none : (out : Option (Reply R E) × S) → Fits out → out.0 ≡ none → Reached out.1
  unfolding Fits
  Fits-none (none, t) h e = h
  Fits-none (some reply, t) h e = absurd (ground (arith, e))

  Fits-some :
      (reply : Reply R E) (out : Option (Reply R E) × S)
      → Fits out
      → out.0 ≡ some reply
      → Settled reply out.1
  unfolding Fits
  Fits-some reply (none, t) h e = absurd (ground (arith, e))
  Fits-some reply (some heard, t) h e =
      let same : heard ≡ reply = ground (arith, e) in subst (λ r. Settled r t) same h

  attempts-Settled :
      (left number : ℕ) (meets : ℕ → Attempt E) (t : S)
      → Reached t
      → (let (reply, u) = attempts apply left number meets t in Settled reply u)
  unfolding attempts Settled IsSettled Reached
  attempts-Settled zero number meets t h = h
  attempts-Settled (suc left) number meets t h =
      let out = attempt apply (meets number) t in
      let fits = attempt-Fits (meets number) t h in
      elim (Option-cases (attempt apply (meets number) t).0) [
        | inl none' ↦
            rw (attempts, none')
              (attempts-Settled left (suc number) meets out.1 (Fits-none out fits none'))
        | inr (reply, some') ↦ rw (attempts, some') (Fits-some reply out fits some')
      ]

swap-IsOnce :
    (c : Codec) (s : Store) (key : Text) (read : ℕ) (value : CommandValue)
    → IsValid s
    → IsOnce (apply_swap c key read value) s
unfolding IsOnce apply_swap
swap-IsOnce c s key read value valid =
    let again = λ (v : Store). (apply_txn c (swap key read value) v).1.1 in
    elim (Bool-cases (nat_beq (mod_revision_of s key) read)) [
      | inl yes' ↦
          let same : mod_revision_of s key ≡ read = ground (arith, yes') in
          let won : (apply_txn c (swap key read value) s).0 ≡ true =
            subst (λ k. (apply_txn c (swap key k value) s).0 ≡ true) same
              (swap-wins c s key value).0 in
          ap (λ (out : Bool × (Result WriteReply × Store)). out.1.1)
            (swap-race c s key read value value valid won)
      | inr no' ↦
          let other : mod_revision_of s key ≢ read = ground (arith, no') in
          ap again (
            ap (λ (out : Bool × (Result WriteReply × Store)). out.1.1)
              (swap-loses c s key read value other))
    ]

-- A swap that a node executes, however often it retries and whatever becomes of its attempts,
-- leaves a valid store as it was or as one application of the swap leaves it; the latter if it is
-- answered by a result of the machine, which is that of the first application or that of a
-- repeated one.
pub execute-swap :
    {E : Type 0}
    → (c : Codec) (s : Store) (key : Text) (read : ℕ) (value : CommandValue) (retries : ℕ)
      (meets : ℕ → Attempt E)
    → IsValid s
    → (let (first, u) = apply_swap c key read value s in
        let (reply, t) = execute (apply_swap c key read value) retries meets s in
        IsSettled s u first (apply_swap c key read value u).0 reply t)
unfolding execute Settled Reached
execute-swap {E} c s key read value retries meets valid =
    attempts-Settled E (apply_swap c key read value) s (swap-IsOnce c s key read value valid)
      (retries + 1) 0 meets s (inl refl)
