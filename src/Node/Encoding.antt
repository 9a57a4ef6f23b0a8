-- ===== src/Node/Encoding.antt =====
-- A value that passes through the log of store/node.js as base64 text arrives as it was sent.
use nodejs_k8s.Prelude.{
  ℕ, Bool, true, false, List, [], ◌∷◌, map, ◌≡◌, refl, ap, ◌∙◌, every, length, ◌+◌, if◌then◌else◌,
}
use mathlib.Core.Path.{fun_ext}
use nodejs_k8s.Mvcc.Types.{Codec, IsCodec, Store, Result, ok, err}
use nodejs_k8s.Mvcc.Compare.{buffer, from_command, Compare, Target, compare, order_target}
use nodejs_k8s.Mvcc.Batch.{
  Op, Response, Txn, run_op, run_ops, finish_writes, apply_writes, succeeds, apply_txn,
}
use nodejs_k8s.Node.Commands.{
  ClientOp, writes, passes, ClientCompare, ClientTxn, encode_op, encode_compare, txn_of,
}

-- the transaction as it was meant, on the client's own bytes
unfoldable pub plain_op : ClientOp → Op
plain_op (writes key value o prev_kv) = Op.put key (buffer value) o prev_kv
plain_op (passes op) = op

unfoldable pub plain_compare : ClientCompare → Compare
plain_compare cmp = record cmp.guard { value = buffer cmp.bytes }

unfoldable pub plain_txn : ClientTxn → Txn
unfolding plain_op plain_compare
plain_txn t = record {
  compare = map plain_compare t.compare;
  success = map plain_op t.success;
  failure = map plain_op t.failure;
}

-- an operation, and the operations after it
join :
    Result Response × Store
    → (Store → Result (List Response) × Store)
    → Result (List Response) × Store
join first later = elim first.0 [
  | err e ↦ (err e, first.1)
  | ok r ↦ (elim (later first.1).0 [ err e ↦ err e | ok rs ↦ ok (r ∷ rs) ], (later first.1).1)
]

module _ (c : Codec) (laws : IsCodec c) where
  run_op-encode_op :
      (rev : ℕ) (op : ClientOp) (s : Store)
      → run_op c rev (encode_op c op) s ≡ run_op c rev (plain_op op) s
  unfolding run_op encode_op plain_op from_command
  run_op-encode_op rev (writes key value o prev_kv) s = rw (laws.from-to_base64 value) refl
  run_op-encode_op rev (passes op) s = refl

  run_ops-encode_op :
      (rev : ℕ) (ops : List ClientOp) (s : Store)
      → run_ops c rev (map (encode_op c) ops) s ≡ run_ops c rev (map plain_op ops) s
  unfolding run_ops join
  run_ops-encode_op rev [] s = refl
  run_ops-encode_op rev (op ∷ ops) s =
      ap (λ out. join out (run_ops c rev (map (encode_op c) ops))) (run_op-encode_op rev op s)
      ∙ ap (join (run_op c rev (plain_op op) s)) (fun_ext (λ t. run_ops-encode_op rev ops t))

  writes-encode_op :
      (b : Bool) (ops others : List ClientOp) (s : Store)
      → apply_writes c (if b then map (encode_op c) ops else map (encode_op c) others) s
        ≡ apply_writes c (if b then map plain_op ops else map plain_op others) s
  unfolding apply_writes
  writes-encode_op true ops others s =
      ap (finish_writes (length s.events) (s.revision + 1))
        (run_ops-encode_op (s.revision + 1) ops s)
  writes-encode_op false ops others s =
      ap (finish_writes (length s.events) (s.revision + 1))
        (run_ops-encode_op (s.revision + 1) others s)

  compare-at :
      (s : Store) (cmp : ClientCompare) (t : Target)
      → cmp.guard.target ≡ t
      → compare c s (encode_compare c cmp) ≡ compare c s (plain_compare cmp)
  unfolding compare encode_compare plain_compare order_target from_command
  compare-at s cmp Target.value h = rw (h, laws.from-to_base64 cmp.bytes) refl
  compare-at s cmp Target.create h = rw h refl
  compare-at s cmp Target.mod_revision h = rw h refl
  compare-at s cmp Target.lease h = rw h refl
  compare-at s cmp Target.version h = rw h refl

  every-encode_compare :
      (s : Store) (cmps : List ClientCompare)
      → every (compare c s) (map (encode_compare c) cmps)
        ≡ every (compare c s) (map plain_compare cmps)
  unfolding every
  every-encode_compare s [] = refl
  every-encode_compare s (cmp ∷ cmps) =
      rw (compare-at s cmp cmp.guard.target refl, every-encode_compare s cmps) refl

-- A transaction that went through the log does what it does on the client's own bytes: what it answers
-- and what it leaves are the same, if base64 decoding undoes encoding.
pub apply_txn-txn_of :
    (c : Codec) (t : ClientTxn) (s : Store)
    → IsCodec c
    → apply_txn c (txn_of c t) s ≡ apply_txn c (plain_txn t) s
unfolding apply_txn txn_of plain_txn succeeds
apply_txn-txn_of c t s laws = rw (every-encode_compare c laws s t.compare) (
    ap (λ out. (every (compare c s) (map plain_compare t.compare), out))
      (writes-encode_op c laws (every (compare c s) (map plain_compare t.compare)) t.success
        t.failure s))
