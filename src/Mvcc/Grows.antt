-- ===== src/Mvcc/Grows.antt =====
-- What a batch of writes does to a store: it appends, to chains and to the event log alike, and
-- stamps all it appends with the revision of the batch.
use nodejs_k8s.Prelude.{
  nat_eq, ℕ, Text, Bool, true, false, Option, none, some, List, [], ◌∷◌, ◌++◌, ◌==◌, ◌≡◌, refl, sym,
  ap, ◌∙◌, All, arith, text_eq, text_beq_iff, length, All-append, append-nil, append_assoc,
  if◌then◌else◌, nat_beq, length-append, not, ◌&&◌, if_ind,
}
use nodejs_k8s.Prelude.Map
use nodejs_k8s.Prelude.Map.{Map}
use nodejs_k8s.Mvcc.Types.{Bytes, Codec, Entry, Event, event_key, Lease, Store, Result, ok, err}
use nodejs_k8s.Mvcc.Read.{entry_at, chain_of, kv_of, matching_keys}
use nodejs_k8s.Mvcc.Write.{
  PutOptions, new_entry, put_event, put_entry, put_at, tombstone, delete_event, delete_entry,
  delete_key, delete_keys, delete_at,
}
use nodejs_k8s.Mvcc.Compare.{from_command}
use nodejs_k8s.Mvcc.Batch.{
  Op, put, delete_range, range_op, unknown, run_op, run_ops, respond_put, Response,
}
use nodejs_k8s.Mvcc.Chains.{
  count_key, count_key-append, IsStamped, lookup_chain-set, chain_of-lookup, lookup_chain,
}

abbrev pub AreStamped : ℕ → List Event → Type 0
AreStamped rev = All (λ (e : Event). e.rev ≡ rev)

pub record Grows (rev : ℕ) (s t : Store) : Type 0 where
  pub news : List Event
  pub events : t.events ≡ s.events ++ news
  pub news_stamped : AreStamped rev news
  pub added : Text → List Entry
  pub chains : (k : Text) → chain_of t k ≡ chain_of s k ++ added k
  pub added_stamped : (k : Text) → IsStamped rev (added k)
  pub balanced : (k : Text) → length (added k) ≡ count_key k news
  pub revision : t.revision ≡ s.revision
  pub compact_revision : t.compact_revision ≡ s.compact_revision
  pub watchers : t.watchers ≡ s.watchers
  pub next_watch_id : t.next_watch_id ≡ s.next_watch_id
  pub delivered : t.delivered ≡ s.delivered
  pub distinct : Map.IsDistinct s.keys → Map.IsDistinct t.keys

pub Grows-refl : (rev : ℕ) (s : Store) → Grows rev s s
Grows-refl rev s = record {
  news = [];
  events = sym (append-nil s.events);
  news_stamped = tt;
  added = λ k. [];
  chains = λ k. sym (append-nil (chain_of s k));
  added_stamped = λ k. tt;
  balanced = λ k. refl;
  revision = refl;
  compact_revision = refl;
  watchers = refl;
  next_watch_id = refl;
  delivered = refl;
  distinct = λ d. d;
}

pub Grows-trans : {rev : ℕ} {s t u : Store} → Grows rev s t → Grows rev t u → Grows rev s u
Grows-trans {rev} {s} {t} {u} g h = record {
  news = g.news ++ h.news;
  events = h.events ∙ ap (λ xs. xs ++ h.news) g.events ∙ append_assoc s.events g.news h.news;
  news_stamped =
      All-append (λ (e : Event). e.rev ≡ rev) g.news h.news g.news_stamped h.news_stamped;
  added = λ k. g.added k ++ h.added k;
  chains = λ k.
      h.chains k
      ∙ ap (λ xs. xs ++ h.added k) (g.chains k)
      ∙ append_assoc (chain_of s k) (g.added k) (h.added k);
  added_stamped = λ k.
      All-append (λ (e : Entry). e.rev ≡ rev) (g.added k) (h.added k) (g.added_stamped k)
        (h.added_stamped k);
  balanced = λ k. omega (
    arith,
    length-append (g.added k) (h.added k),
    count_key-append k g.news h.news,
    g.balanced k,
    h.balanced k,
  );
  revision = h.revision ∙ g.revision;
  compact_revision = h.compact_revision ∙ g.compact_revision;
  watchers = h.watchers ∙ g.watchers;
  next_watch_id = h.next_watch_id ∙ g.next_watch_id;
  delivered = h.delivered ∙ g.delivered;
  distinct = λ d. h.distinct (g.distinct d);
}

-- one entry more in the chain of `key`, and one event about `key`
abbrev only : Text → Entry → Text → List Entry
only key entry k = if key == k then entry ∷ [] else []

length-only :
    (key k : Text) (entry : Entry) → length (only key entry k) ≡ (if key == k then 1 else 0)
length-only key k entry = ground arith

only-IsStamped :
    {rev : ℕ} (key k : Text) (entry : Entry) → entry.rev ≡ rev → IsStamped rev (only key entry k)
only-IsStamped {rev} key k entry h = go (key == k)
  where
    go : (b : Bool) → IsStamped rev (if b then entry ∷ [] else [])
    go true = (h, tt)
    go false = tt

-- A store with one more entry and one more event about it has grown.
module _ (rev : ℕ) (s : Store) (key : Text) (entry : Entry) (e : Event) (leases : Map ℕ Lease)
    (entry_rev : entry.rev ≡ rev) (event_rev : e.rev ≡ rev) (about : event_key e ≡ key) where
  abbrev grown : Store
  grown = record s {
    keys = Map.set key (chain_of s key ++ entry ∷ []) s.keys;
    leases = leases;
    events = s.events ++ e ∷ [];
  }

  chain_of-grown : (k : Text) → chain_of grown k ≡ chain_of s k ++ only key entry k
  chain_of-grown k =
      rw (chain_of-lookup grown k, chain_of-lookup s k)
        (ground (
          arith,
          lookup_chain-set key k (chain_of s key ++ entry ∷ []) s.keys,
          text_beq_iff key k,
          chain_of-lookup s key,
          append-nil (lookup_chain k s.keys),
        ))

  grown-Grows : Grows rev s grown
  grown-Grows = record {
    news = e ∷ [];
    events = refl;
    news_stamped = (event_rev, tt);
    added = only key entry;
    chains = chain_of-grown;
    added_stamped = λ k. only-IsStamped key k entry entry_rev;
    balanced = λ k. length-only key k entry ∙ ground (arith, about);
    revision = refl;
    compact_revision = refl;
    watchers = refl;
    next_watch_id = refl;
    delivered = refl;
    distinct = Map.IsDistinct-set key (chain_of s key ++ entry ∷ []) s.keys;
  }

put_entry-Grows :
    {rev : ℕ} (key : Text) (previous : Option Entry) (entry : Entry) (s : Store)
    → entry.rev ≡ rev
    → Grows rev s (put_entry key previous entry s)
unfolding put_entry put_event event_key kv_of
put_entry-Grows {rev} key previous entry s h =
    grown-Grows rev s key entry (put_event entry.rev key entry previous) _ h h refl

delete_entry-Grows :
    (rev : ℕ) (key : Text) (previous : Entry) (s : Store)
    → Grows rev s (delete_entry rev key previous s)
unfolding delete_entry delete_event event_key tombstone
delete_entry-Grows rev key previous s =
    grown-Grows rev s key (tombstone rev) (delete_event rev key previous) _ refl refl refl

rev-new_entry :
    (rev : ℕ) (previous : Option Entry) (value : Bytes) (o : PutOptions)
    → (new_entry rev previous value o).rev ≡ rev
unfolding new_entry
rev-new_entry rev none value o = refl
rev-new_entry rev (some p) value o = refl

put_at-Grows :
    (rev : ℕ) (key : Text) (value : Bytes) (o : PutOptions) (s : Store)
    → Grows rev s (put_at rev key value o s).1
unfolding put_at
put_at-Grows rev key value o s =
    let entry = new_entry rev (entry_at s key 0) value o in
    if_ind (λ (r : Result Event × Store). Grows rev s r.1)
      (not (nat_beq entry.lease 0) && not (Map.has entry.lease s.leases)) (Grows-refl rev s)
      (put_entry-Grows key (entry_at s key 0) entry s
        (rev-new_entry rev (entry_at s key 0) value o))

delete_key-Grows : (rev : ℕ) (key : Text) (s : Store) → Grows rev s (delete_key rev key s).1
unfolding delete_key
delete_key-Grows rev key s =
    elim (entry_at s key 0)
      as (λ found.
        Grows rev s
          (let r : List Event × Store = elim found [
            | none ↦ ([], s)
            | some previous ↦ (delete_event rev key previous ∷ [], delete_entry rev key previous s)
          ] in
            r).1) [
              | none ↦ Grows-refl rev s
              | some previous ↦ delete_entry-Grows rev key previous s
            ]

delete_keys-Grows :
    (rev : ℕ) (keys : List Text) (s : Store) → Grows rev s (delete_keys rev keys s).1
unfolding delete_keys
delete_keys-Grows rev [] s = Grows-refl rev s
delete_keys-Grows rev (key ∷ keys) s =
    Grows-trans (delete_key-Grows rev key s) (delete_keys-Grows rev keys (delete_key rev key s).1)

pub delete_at-Grows :
    (rev : ℕ) (key range_end : Text) (s : Store) → Grows rev s (delete_at rev key range_end s).1
unfolding delete_at
delete_at-Grows rev key range_end s = delete_keys-Grows rev (matching_keys s key range_end) s

respond_put-store : (prev_kv : Bool) (r : Result Event × Store) → (respond_put prev_kv r).1 ≡ r.1
unfolding respond_put
respond_put-store prev_kv (ok e, s) = refl
respond_put-store prev_kv (err e, s) = refl

run_op-Grows : (c : Codec) (rev : ℕ) (op : Op) (s : Store) → Grows rev s (run_op c rev op s).1
unfolding run_op
run_op-Grows c rev (put key value o prev_kv) s =
    rw (respond_put-store prev_kv (put_at rev key (from_command c value) o s))
      (put_at-Grows rev key (from_command c value) o s)
run_op-Grows c rev (delete_range key range_end prev_kv) s = delete_at-Grows rev key range_end s
run_op-Grows c rev (range_op key o) s = Grows-refl rev s
run_op-Grows c rev unknown s = Grows-refl rev s

-- Whether or not an operation throws, the batch has only appended.
pub run_ops-Grows :
    (c : Codec) (rev : ℕ) (ops : List Op) (s : Store) → Grows rev s (run_ops c rev ops s).1
unfolding run_ops
run_ops-Grows c rev [] s = Grows-refl rev s
run_ops-Grows c rev (op ∷ ops) s =
    stop (run_op c rev op s).0 (run_op-Grows c rev op s)
      (Grows-trans (run_op-Grows c rev op s) (run_ops-Grows c rev ops (run_op c rev op s).1))
  where
    stop :
        (r : Result Response)
        → Grows rev s (run_op c rev op s).1
        → Grows rev s (run_ops c rev ops (run_op c rev op s).1).1
        → Grows rev s
            (let out : Result (List Response) × Store = elim r [
              | err e ↦ (err e, (run_op c rev op s).1)
              | ok first ↦ (
                elim (run_ops c rev ops (run_op c rev op s).1).0 [
                  | err e ↦ err e
                  | ok later ↦ ok (first ∷ later)
                ],
                (run_ops c rev ops (run_op c rev op s).1).1,
              )
            ] in
              out).1
    stop (err e) now all = now
    stop (ok first) now all = all
