-- ===== src/Node/Examples.antt =====
-- The theorems of the node at a swap on an empty store: the first attempt is applied without an answer, the
-- second is answered.
use nodejs_k8s.Prelude.{
  ℕ, zero, suc, ◌+◌, ◌-◌, Bool, true, false, none, List, [], ◌∷◌, map, arith, Text, ◌≡◌, refl,
}
use nodejs_k8s.Prelude.Map
use nodejs_k8s.Mvcc.Types.{Codec, IsCodec, Store, Result}
use nodejs_k8s.Mvcc.Read.{chain_of}
use nodejs_k8s.Mvcc.Compare.{buffer, Target}
use nodejs_k8s.Mvcc.Swap.{no_options, unchanged_since}
use nodejs_k8s.Mvcc.Batch.{Op, WriteReply, apply_txn}
use nodejs_k8s.Mvcc.Valid.{IsValid}
use nodejs_k8s.Node.Execute.{Attempt, unheard, undone, answered, execute}
use nodejs_k8s.Node.Commands.{ClientTxn, writes, passes, txn_of, seed_command}
use nodejs_k8s.Node.Encoding.{plain_txn, apply_txn-txn_of}
use nodejs_k8s.Node.Swaps.{apply_swap, IsSettled, execute-swap}

abbrev plain : Codec
plain = record { to_base64 = λ b. b; from_base64 = λ t. t; to_text = λ b. b }

abbrev nothing : Store
nothing = record {
  revision = 0;
  compact_revision = 0;
  keys = [];
  events = [];
  leases = [];
  watchers = [];
  next_watch_id = 1;
  delivered = [];
}

nothing-IsValid : IsValid nothing
unfolding chain_of Map.get
nothing-IsValid = record {
  chains = λ k. record { rises = tt; positive = tt; bounded = tt };
  distinct = tt;
  log_rises = tt;
  log_bounded = tt;
  log_uncompacted = tt;
  compact-le-revision = omega arith;
}

-- a leader that loses the lead during the first attempt, and knows the new one in the second
abbrev meets : ℕ → Attempt Text
meets zero = record { leads = true; proposed = unheard; knows_leader = false; forwarded = undone }
meets (suc n) = record {
  leads = false;
  proposed = undone;
  knows_leader = true;
  forwarded = answered;
}

-- the swap, and what it answers and leaves
abbrev write : Store → (Bool × Result WriteReply) × Store
write = apply_swap plain (7 ∷ []) 0 (buffer (5 ∷ []))

execute-swap_example :
    let (first, u) = write nothing in
    let (reply, t) = execute write 20 meets nothing in IsSettled nothing u first (write u).0 reply t
execute-swap_example =
    execute-swap plain nothing (7 ∷ []) 0 (buffer (5 ∷ [])) 20 meets nothing-IsValid

-- a codec that shifts each byte up, and back
abbrev shifting : Codec
shifting = record { to_base64 = map (λ b. b + 1); from_base64 = map (λ b. b - 1); to_text = λ b. b }

shifting-IsCodec : IsCodec shifting
shifting-IsCodec = record { from-to_base64 = back }
  where
    back : (b : List ℕ) → map (λ x. x - 1) (map (λ x. x + 1) b) ≡ b
    back [] = refl
    back (x ∷ xs) = let same : x + 1 - 1 ≡ x = omega arith in rw (same, back xs) refl

-- a guard on the key's value, a put, and a delete if the guard fails
abbrev guarded : ClientTxn
guarded = record {
  compare =
      record {
        guard = record (unchanged_since (7 ∷ []) 0) { target = Target.value };
        bytes = 5 ∷ [];
      }
      ∷ [];
  success = writes (7 ∷ []) (6 ∷ []) no_options false ∷ [];
  failure = passes (Op.delete_range (7 ∷ []) [] false) ∷ [];
}

-- What the store has reached is not seeded again.
seeded : seed_command 0 nothing ≡ none
unfolding seed_command
seeded = refl

apply_txn-txn_of_example :
    apply_txn shifting (txn_of shifting guarded) nothing
    ≡ apply_txn shifting (plain_txn guarded) nothing
apply_txn-txn_of_example = apply_txn-txn_of shifting guarded nothing shifting-IsCodec
