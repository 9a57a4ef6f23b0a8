-- ===== src/Gateway/Logged.antt =====
-- The reads of store/gateway.js, of what the node has and through the log.
use nodejs_k8s.Prelude.{
  ℕ, ◌+◌, Text, Bool, true, false, not, every, none, [], ◌∷◌, ◌≡◌, refl, ap, arith, text_eq,
}
use nodejs_k8s.Mvcc.Types.{Bytes, Codec, Store, Result, ok}
use nodejs_k8s.Mvcc.Read.{RangeOptions, RangeReply, range}
use nodejs_k8s.Mvcc.Batch.{
  Op, Response, apply_writes, range_response, respond_range, run_op, run_ops, commit, finish_writes,
  succeeds, apply_txn,
}
use nodejs_k8s.Mvcc.Swap.{drop-all}
use nodejs_k8s.Mvcc.Apply.{Reply, txn, transacted, reply_with, apply}
use nodejs_k8s.Node.Commands.{range_command}
use nodejs_k8s.Gateway.Decode.{b64, RangeBody, range_args}
use nodejs_k8s.Gateway.Calls.{
  Site, responded, header, encode_range, encode_response, execute, own, range_of,
}

module _ (c : Codec) (from_text : Text → Bytes) where
  module _ (t : Store) (key : Text) (o : RangeOptions) (r : RangeReply)
      (read : range c t key o ≡ ok r) where
    run_op-read : (rev : ℕ) → run_op c rev (Op.range_op key o) t ≡ (ok (range_response r), t)
    unfolding run_op respond_range
    run_op-read rev = rw read refl

    run_ops-read :
        (rev : ℕ) → run_ops c rev (Op.range_op key o ∷ []) t ≡ (ok (range_response r ∷ []), t)
    unfolding run_ops
    run_ops-read rev =
        let given = ap (λ (out : Result Response × Store). out.0) (run_op-read rev) in
        let kept = ap (λ (out : Result Response × Store). out.1) (run_op-read rev) in
        rw (run_ops, given, kept) refl

    -- A read that goes through the log answers what the store answers, and leaves the store as it is.
    apply-read :
        apply c (txn (record { compare = []; success = Op.range_op key o ∷ []; failure = [] })) t
        ≡ (
          ok (
              transacted true
                (record { revision = t.revision; responses = range_response r ∷ [] })),
          t,
        )
    unfolding apply apply_txn succeeds every apply_writes finish_writes commit reply_with
    apply-read = rw (apply, run_ops-read (t.revision + 1), drop-all t) refl

  own-leads : (site : Site) (t : Store) → site.is_leader ≡ true → own c from_text site t ≡ t
  unfolding own
  own-leads site t leads = rw leads refl

  -- a read of what the node has, and one that goes through the log
  module _ (site : Site) (body : RangeBody) (t : Store) (r : RangeReply)
      (read : range c t (b64 c body.key) (range_args c body) ≡ ok r) where
    pub range_of-local :
        (linearizable : Bool)
        → site.is_leader ≡ true
        → range_of c from_text site (not linearizable) body t ≡ (
          responded (header c from_text site (own c from_text site t)) (encode_range c from_text r),
          t,
        )
    unfolding range_of range_command
    range_of-local linearizable leads =
        let none' : range_command site.is_leader (not (not linearizable)) (b64 c body.key)
              (range_args c body)
            ≡ none =
          ground (arith, leads) in
        rw (range_of, none', own-leads site t leads, read) refl

    pub range_of-log :
        site.is_leader ≡ false
        → range_of c from_text site false body t ≡ (
          responded (header c from_text site (own c from_text site t)) (encode_range c from_text r),
          t,
        )
    unfolding range_of range_command execute encode_response
    range_of-log follows =
        let done = apply-read t (b64 c body.key) (range_args c body) r read in
        let given = ap (λ (out : Result Reply × Store). out.0) done in
        let kept = ap (λ (out : Result Reply × Store). out.1) done in
        rw (range_of, follows, execute, given, kept, follows) refl
