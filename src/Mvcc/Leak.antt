-- ===== src/Mvcc/Leak.antt =====
-- What a rolled back batch leaves behind: the lease bookkeeping of the operations before the throw.
use nodejs_k8s.Prelude.{
  nat_eq, nat_beq_iff, text_eq, text_beq_iff, ℕ, ◌+◌, Text, true, false, Option, none, some, List,
  [], ◌∷◌, ◌++◌, ◌≡◌, ◌≢◌, ◌∙◌, ap, refl, arith, any, length, Option-cases, inl, inr,
}
use nodejs_k8s.Prelude.Map
use nodejs_k8s.Prelude.Map.{Map}
use nodejs_k8s.Mvcc.Types.{Codec, Entry, Lease, Store, Result, ok, err, lease_not_found}
use nodejs_k8s.Mvcc.Read.{entry_at}
use nodejs_k8s.Mvcc.Write.{
  PutOptions, contains, set_add, set_delete, attach, detach, detach_previous, new_entry, put_event,
  put_entry, put_at,
}
use nodejs_k8s.Mvcc.Compare.{CommandValue, from_command}
use nodejs_k8s.Mvcc.Batch.{
  Op, respond_put, run_op, run_ops, rollback, finish_writes, WriteReply, apply_writes,
}
use nodejs_k8s.Mvcc.Atomicity.{apply_writes_atomic}
use nodejs_k8s.Mvcc.Machine.{entry_at-chain}
use nodejs_k8s.Mvcc.Deletion.{member}

abbrev pub with_lease : ℕ → PutOptions
with_lease id = record { lease = id; ignore_value = false; ignore_lease = false }

contains-member : (key : Text) (ks : List Text) → contains key ks ≡ member key ks
unfolding contains any
contains-member key [] = refl
contains-member key (k ∷ ks) = ground (arith, contains-member key ks)

member-append_one : (key : Text) (ks : List Text) → member key (ks ++ key ∷ []) ≡ true
unfolding any
member-append_one key [] = ground (arith, text_beq_iff key key)
member-append_one key (k ∷ ks) = ground (arith, member-append_one key ks)

member-set_add : (key : Text) (ks : List Text) → member key (set_add key ks) ≡ true
unfolding set_add
member-set_add key ks = ground (arith, contains-member key ks, member-append_one key ks)

-- a lease that is there keeps its place when its keys change
has-set :
    (id m : ℕ) (l l' : Lease) (leases : Map ℕ Lease)
    → Map.get id leases ≡ some l
    → Map.has m (Map.set id l' leases) ≡ Map.has m leases
unfolding Map.has
has-set id m l l' leases h = ground (arith, h, Map.get-set id m l' leases, nat_beq_iff id m)

has-attach :
    (id m : ℕ) (key : Text) (leases : Map ℕ Lease)
    → Map.has m (attach id key leases) ≡ Map.has m leases
unfolding attach
has-attach id m key leases = elim (Option-cases (Map.get id leases)) [
  | inl e ↦ ground (arith, e)
  | inr (l, e) ↦ ground (arith, e, has-set id m l (record l { keys = set_add key l.keys }) leases e)
]

has-detach :
    (id m : ℕ) (key : Text) (leases : Map ℕ Lease)
    → Map.has m (detach id key leases) ≡ Map.has m leases
unfolding detach
has-detach id m key leases = elim (Option-cases (Map.get id leases)) [
  | inl e ↦ ground (arith, e)
  | inr (l, e) ↦
      ground (arith, e, has-set id m l (record l { keys = set_delete key l.keys }) leases e)
]

has-detach_previous :
    (previous : Option Entry) (m : ℕ) (key : Text) (leases : Map ℕ Lease)
    → Map.has m (detach_previous previous key leases) ≡ Map.has m leases
unfolding detach_previous
has-detach_previous none m key leases = refl
has-detach_previous (some p) m key leases = has-detach p.lease m key leases

-- the lease now counts the key among its own
abbrev pub Attached : ℕ → Text → Map ℕ Lease → Type 0
Attached id key leases = (l : Lease) × (Map.get id leases ≡ some l) × (member key l.keys ≡ true)

attach-Attached :
    (id : ℕ) (key : Text) (leases : Map ℕ Lease)
    → id ≢ 0
    → Map.has id leases ≡ true
    → Attached id key (attach id key leases)
unfolding attach Map.has
attach-Attached id key leases pos h = elim (Option-cases (Map.get id leases)) [
  | inl e ↦ absurd (ground (arith, e, h))
  | inr (l, e) ↦ (
    record l { keys = set_add key l.keys },
    ground (
      arith,
      e,
      pos,
      nat_beq_iff id 0,
      nat_beq_iff id id,
      Map.get-set id id (record l { keys = set_add key l.keys }) leases,
    ),
    member-set_add key l.keys,
  )
]

module _ (c : Codec) (s : Store) (id missing : ℕ) (key other : Text) (v w : CommandValue) where
  abbrev batch : List Op
  batch = Op.put key v (with_lease id) false ∷ Op.put other w (with_lease missing) false ∷ []

  abbrev first : Entry
  first = new_entry (s.revision + 1) (entry_at s key 0) (from_command c v) (with_lease id)

  abbrev half_way : Store
  half_way = put_entry key (entry_at s key 0) first s

  lease-first : first.lease ≡ id
  unfolding new_entry
  lease-first = ground arith

  has-half_way : (m : ℕ) → Map.has m half_way.leases ≡ Map.has m s.leases
  unfolding put_entry
  has-half_way m =
      has-attach first.lease m key (detach_previous (entry_at s key 0) key s.leases)
      ∙ has-detach_previous (entry_at s key 0) m key s.leases

  half_way-Attached : id ≢ 0 → Map.has id s.leases ≡ true → Attached id key half_way.leases
  unfolding put_entry
  half_way-Attached pos h = rw lease-first (
      attach-Attached id key (detach_previous (entry_at s key 0) key s.leases) pos
        (has-detach_previous (entry_at s key 0) id key s.leases ∙ h))

  second_throws :
      missing ≢ 0
      → Map.has missing s.leases ≡ false
      → put_at (s.revision + 1) other (from_command c w) (with_lease missing) half_way
        ≡ (err lease_not_found, half_way)
  unfolding put_at new_entry
  second_throws pos h = ground (arith, has-half_way missing, h, pos, nat_beq_iff missing 0)

  first_returns :
      Map.has id s.leases ≡ true
      → put_at (s.revision + 1) key (from_command c v) (with_lease id) s
        ≡ (ok (put_event (s.revision + 1) key first (entry_at s key 0)), half_way)
  unfolding put_at
  first_returns h = ground (arith, lease-first, h)

  apply_writes-batch :
      missing ≢ 0
      → Map.has id s.leases ≡ true
      → Map.has missing s.leases ≡ false
      → apply_writes c batch s
        ≡ (err lease_not_found, rollback (length s.events) (s.revision + 1) half_way)
  unfolding apply_writes finish_writes run_ops run_op respond_put
  apply_writes-batch pos h absent = ground (arith, first_returns h, second_throws pos absent)

-- A batch of two puts, the first under a lease that is there and the second under one that is not,
-- throws and is rolled back: the key of the first put has the live entry that it had. But its lease
-- keeps it among its keys, though the put that attached it never happened.
pub rollback_leaks_lease :
    (c : Codec) (s : Store) (id missing : ℕ) (key other : Text) (v w : CommandValue)
    → id ≢ 0
    → missing ≢ 0
    → Map.has id s.leases ≡ true
    → Map.has missing s.leases ≡ false
    → let r =
        apply_writes c
          (Op.put key v (with_lease id) false ∷ Op.put other w (with_lease missing) false ∷ [])
          s in
      (r.0 ≡ err lease_not_found)
      × (entry_at r.1 key 0 ≡ entry_at s key 0)
      × Attached id key r.1.leases
rollback_leaks_lease c s id missing key other v w pos pos' h absent =
    let e = apply_writes-batch c s id missing key other v w pos' h absent in
    let thrown = ap (λ (r : Result WriteReply × Store). r.0) e in
    (
      thrown,
      entry_at-chain s _ key 0
          ((apply_writes_atomic c (batch c s id missing key other v w) s thrown).chains key),
      rw e (unfold rollback in half_way-Attached c s id missing key other v w pos h),
    )
