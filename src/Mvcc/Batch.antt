-- ===== src/Mvcc/Batch.antt =====
-- Batches of writes under one revision: `applyWrites`, `rollback` and `applyTxn` of store/mvcc.js.
use nodejs_k8s.Prelude.{
  ℕ, Text, Bool, ◌+◌, Option, none, some, List, [], ◌∷◌, map, text_eq, nat_beq, every, last?,
  drop_last, drop, take, length, if◌then◌else◌,
}
use nodejs_k8s.Prelude.Map
use nodejs_k8s.Prelude.Map.{Map}
use nodejs_k8s.Mvcc.Types.{
  Codec, Entry, Kv, Event, event_key, Store, Result, ok, err, unknown_operation,
}
use nodejs_k8s.Mvcc.Read.{is_empty, range, RangeOptions, RangeReply}
use nodejs_k8s.Mvcc.Write.{PutOptions, put_at, delete_at}
use nodejs_k8s.Mvcc.Watch.{publish}
use nodejs_k8s.Mvcc.Compare.{CommandValue, from_command, Compare, compare}

pub data Op : Type 0 where
  put : Text → CommandValue → PutOptions → Bool → Op
  delete_range : Text → Text → Bool → Op
  range_op : Text → RangeOptions → Op
  unknown : Op

pub data Response : Type 0 where
  put_response : Option Kv → Response
  delete_response : ℕ → List (Option Kv) → Response
  range_response : RangeReply → Response

unfoldable pub respond_put : Bool → Result Event × Store → Result Response × Store
respond_put prev_kv (ok event, s) = (ok (put_response (if prev_kv then event.prev_kv else none)), s)
respond_put prev_kv (err e, s) = (err e, s)

respond_delete : Bool → List Event × Store → Result Response × Store
respond_delete prev_kv (events, s) = (
  ok (
      delete_response (length events)
        (if prev_kv then map (λ (e : Event). e.prev_kv) events else [])),
  s,
)

unfoldable pub respond_range : Result RangeReply → Result Response
respond_range (ok r) = ok (range_response r)
respond_range (err e) = err e

-- the body of the loop of `applyWrites`
unfoldable pub run_op : Codec → ℕ → Op → Store → Result Response × Store
unfolding respond_put respond_delete respond_range
run_op c rev (put key value o prev_kv) s =
    respond_put prev_kv (put_at rev key (from_command c value) o s)
run_op c rev (delete_range key range_end prev_kv) s =
    respond_delete prev_kv (delete_at rev key range_end s)
run_op c rev (range_op key o) s = (respond_range (range c s key o), s)
run_op c rev unknown s = (err unknown_operation, s)

-- a throw ends the loop, and leaves the store as the operations before it left it
unfoldable pub run_ops : Codec → ℕ → List Op → Store → Result (List Response) × Store
run_ops c rev [] s = (ok [], s)
run_ops c rev (op ∷ ops) s =
    let (r, s') = run_op c rev op s in
    let (rs, s'') = run_ops c rev ops s' in
    elim r [
      | err e ↦ (err e, s')
      | ok first ↦ (elim rs [ err e ↦ err e | ok later ↦ ok (first ∷ later) ], s'')
    ]

-- `if (chain && chain.length && chain[chain.length - 1].rev === rev) chain.pop()`
unfoldable pub pop_chain : ℕ → List Entry → List Entry
pop_chain rev chain = elim (last? chain) [
  | none ↦ chain
  | some entry ↦ if nat_beq entry.rev rev then drop_last chain else chain
]

unfoldable pub pop_key : ℕ → Text → Map Text (List Entry) → Map Text (List Entry)
pop_key rev key keys = elim (Map.get key keys) [
  | none ↦ keys
  | some chain ↦ Map.set key (pop_chain rev chain) keys
]

unfoldable pub pop_events : ℕ → List Event → Map Text (List Entry) → Map Text (List Entry)
pop_events rev [] keys = keys
pop_events rev (event ∷ events) keys = pop_events rev events (pop_key rev (event_key event) keys)

unfoldable pub rollback : ℕ → ℕ → Store → Store
rollback mark rev s = record s {
  keys = pop_events rev (drop mark s.events) s.keys;
  events = take mark s.events;
}

pub record WriteReply : Type 0 where
  pub revision : ℕ
  pub responses : List Response

-- `this.revision = rev; this.publish(published)`, if anything was published
unfoldable pub commit : ℕ → List Event → Store → Store
commit rev published s =
    if is_empty published then s else publish published (record s { revision = rev })

unfoldable pub finish_writes : ℕ → ℕ → Result (List Response) × Store → Result WriteReply × Store
finish_writes mark rev (err e, s) = (err e, rollback mark rev s)
finish_writes mark rev (ok responses, s) =
    let s' = commit rev (drop mark s.events) s in
    (ok (record { revision = s'.revision; responses = responses }), s')

unfoldable pub apply_writes : Codec → List Op → Store → Result WriteReply × Store
unfolding finish_writes
apply_writes c ops s =
    finish_writes (length s.events) (s.revision + 1) (run_ops c (s.revision + 1) ops s)

pub record Txn : Type 0 where
  pub compare : List Compare
  pub success : List Op
  pub failure : List Op

unfoldable pub succeeds : Codec → Store → Txn → Bool
succeeds c s t = every (compare c s) t.compare

unfoldable pub apply_txn : Codec → Txn → Store → Bool × (Result WriteReply × Store)
apply_txn c t s =
    let succeeded = succeeds c s t in
    (succeeded, apply_writes c (if succeeded then t.success else t.failure) s)
