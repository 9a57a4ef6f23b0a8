-- ===== src/Mvcc/Swap.antt =====
-- Optimistic concurrency: "write this key only if its modRevision is still what I read".
use nodejs_k8s.Prelude.{
  nat_eq, text_eq, beq_refl, ℕ, ◌+◌, ◌≤◌, Text, true, false, Option, none, some, List, [], ◌∷◌, ◌≡◌,
  ◌≢◌, refl, sym, ap, ◌∙◌, arith, nat_beq, nat_beq_iff, Bool-cases, every, length, drop, All,
  append-nil, drop-length-append, not, ◌&&◌, ltb, inl, inr,
}
use mathlib.Core.Path.{subst}
use nodejs_k8s.Mvcc.Types.{Bytes, Codec, Entry, Store, ok}
use nodejs_k8s.Mvcc.Read.{chain_of, scan, live, entry_at}
use nodejs_k8s.Mvcc.Write.{PutOptions, new_entry, put_at, put_entry}
use nodejs_k8s.Mvcc.Compare.{
  CommandValue, from_command, Compare, Target, equal, expected, actual, entry_field, order_target,
  holds, compare,
}
use nodejs_k8s.Mvcc.Batch.{
  Op, run_op, respond_put, run_ops, finish_writes, commit, apply_writes, Txn, succeeds, apply_txn,
}
use nodejs_k8s.Mvcc.Lookup.{entry_at-put_entry, live-new_entry}
use nodejs_k8s.Mvcc.Machine.{entry_at-chain, chain_of-commit}
use nodejs_k8s.Mvcc.Valid.{IsValid}

-- the guard: the key's modRevision is `read`
abbrev pub unchanged_since : Text → ℕ → Compare
unchanged_since key read = record {
  key = key;
  target = Target.mod_revision;
  result = equal;
  version = none;
  create_revision = none;
  mod_revision = some read;
  lease = none;
  value = CommandValue.buffer [];
}

abbrev pub no_options : PutOptions
no_options = record { lease = 0; ignore_value = false; ignore_lease = false }

abbrev pub swap : Text → ℕ → CommandValue → Txn
swap key read value = record {
  compare = unchanged_since key read ∷ [];
  success = Op.put key value no_options false ∷ [];
  failure = [];
}

-- the modRevision of a key, 0 if it is not live
abbrev pub mod_revision_of : Store → Text → ℕ
mod_revision_of s key = elim (entry_at s key 0) [ none ↦ 0 | some e ↦ e.rev ]

succeeds-swap :
    (c : Codec) (s : Store) (key : Text) (read : ℕ) (value : CommandValue)
    → succeeds c s (swap key read value) ≡ nat_beq (mod_revision_of s key) read
unfolding succeeds every compare order_target holds actual expected entry_field
succeeds-swap c s key read value = ground arith

module _ (c : Codec) (s : Store) (key : Text) (value : CommandValue) where
  abbrev pub written : Entry
  written = new_entry (s.revision + 1) (entry_at s key 0) (from_command c value) no_options

  abbrev stored : Store
  stored = put_entry key (entry_at s key 0) written s

  lease-written : written.lease ≡ 0
  unfolding new_entry
  lease-written = ground arith

  rev-written : written.rev ≡ s.revision + 1
  unfolding new_entry
  rev-written = ground arith

  apply_writes-stored :
      (apply_writes c (Op.put key value no_options false ∷ []) s).1
      ≡ commit (s.revision + 1) (drop (length s.events) stored.events) stored
  unfolding apply_writes finish_writes run_ops run_op respond_put put_at
  apply_writes-stored = ground (arith, lease-written)

  pub entry_at-stored :
      entry_at (apply_writes c (Op.put key value no_options false ∷ []) s).1 key 0 ≡ some written
  entry_at-stored = rw apply_writes-stored (
      entry_at-chain stored _ key 0
        (chain_of-commit (s.revision + 1) (drop (length s.events) stored.events) stored key)
      ∙ entry_at-put_entry (s.revision + 1) key (from_command c value) no_options s key
      ∙ rw (beq_refl key) (live-new_entry (s.revision + 1) (entry_at s key 0) _ no_options))

-- the entry that is due after a swap: one version on, or the first of its key
abbrev pub swapped : ℕ → Option Entry → Bytes → Entry
swapped rev present value = record {
  rev = rev;
  value = value;
  version = elim present [ none ↦ 1 | some p ↦ p.version + 1 ];
  create_revision = elim present [ none ↦ rev | some p ↦ p.create_revision ];
  lease = 0;
  deleted = false;
}

pub new_entry-no_options :
    (rev : ℕ) (present : Option Entry) (value : Bytes)
    → new_entry rev present value no_options ≡ swapped rev present value
unfolding new_entry
new_entry-no_options rev none value = refl
new_entry-no_options rev (some p) value = refl

-- A swap that read the key's present modRevision succeeds, and makes the value that it carries the
-- live one, under the next revision and without a lease: one version on and with the creation revision
-- kept if the key was live, and else the first version, created at that revision.
pub swap-wins :
    (c : Codec) (s : Store) (key : Text) (value : CommandValue)
    → let r = apply_txn c (swap key (mod_revision_of s key) value) s in
      (r.0 ≡ true)
      × (entry_at r.1.1 key 0
          ≡ some (swapped (s.revision + 1) (entry_at s key 0) (from_command c value)))
unfolding apply_txn
swap-wins c s key value =
    let e = succeeds-swap c s key (mod_revision_of s key) value ∙ (nat_beq_iff _ _).1 refl in
    (e, rw e (entry_at-stored c s key value ∙ ap some (new_entry-no_options _ _ _)))

pub drop-all : (s : Store) → drop (length s.events) s.events ≡ []
drop-all s =
    ap (drop (length s.events)) (sym (append-nil s.events)) ∙ drop-length-append s.events []

apply_writes-nil :
    (c : Codec) (s : Store)
    → apply_writes c [] s ≡ (ok (record { revision = s.revision; responses = [] }), s)
unfolding apply_writes finish_writes run_ops commit
apply_writes-nil c s = rw (drop-all s)

-- A swap that read another modRevision than the present one fails: it does nothing to the store.
pub swap-loses :
    (c : Codec) (s : Store) (key : Text) (read : ℕ) (value : CommandValue)
    → mod_revision_of s key ≢ read
    → apply_txn c (swap key read value) s
      ≡ (false, (ok (record { revision = s.revision; responses = [] }), s))
unfolding apply_txn
swap-loses c s key read value h =
    ground (arith, succeeds-swap c s key read value, apply_writes-nil c s)

pub scan-All :
    (P : Entry → Type 0) (rev : ℕ) (chain : List Entry) (acc : Option Entry) (e : Entry)
    → All P chain
    → (acc ≡ some e → P e)
    → scan rev acc chain ≡ some e
    → P e
unfolding scan
scan-All P rev [] acc e all start h = start h
scan-All P rev (x ∷ xs) acc e all start h =
    elim (Bool-cases (not (nat_beq rev 0) && ltb rev x.rev)) [
      | inl stop ↦ start (rw stop at h)
      | inr go ↦
          scan-All P rev xs (some x) e all.1 (λ p. let q : x ≡ e = cc in subst P q all.0)
            (rw go at h)
    ]

mod_revision_of-le : (s : Store) (key : Text) → IsValid s → mod_revision_of s key ≤ s.revision
unfolding entry_at live
mod_revision_of-le s key v = found (scan 0 none (chain_of s key)) refl
  where
    found :
        (o : Option Entry)
        → scan 0 none (chain_of s key) ≡ o
        → (let n : ℕ = elim (live o) [ none ↦ 0 | some e ↦ e.rev ] in n) ≤ s.revision
    found none h = omega arith
    found (some e) h = ground (
      arith,
      scan-All (λ (x : Entry). x.rev ≤ s.revision) 0 (chain_of s key) none e (v.chains key).bounded
          (λ p. cc) h,
    )

abbrev winner : Codec → Store → Text → CommandValue → Store
winner c s key value = (apply_txn c (swap key (mod_revision_of s key) value) s).1.1

mod_revision_of-winner :
    (c : Codec) (s : Store) (key : Text) (value : CommandValue)
    → mod_revision_of (winner c s key value) key ≡ s.revision + 1
mod_revision_of-winner c s key value = ground (arith, (swap-wins c s key value).1)

succeeded :
    (c : Codec) (s : Store) (key : Text) (read : ℕ) (value : CommandValue)
    → (apply_txn c (swap key read value) s).0 ≡ true
    → mod_revision_of s key ≡ read
unfolding apply_txn
succeeded c s key read value h =
    (nat_beq_iff (mod_revision_of s key) read).0 (sym (succeeds-swap c s key read value) ∙ h)

-- Of two writers that read the same modRevision of a key, the one whose swap is applied second loses,
-- and its swap does nothing to the store.
pub swap-race :
    (c : Codec) (s : Store) (key : Text) (read : ℕ) (first second : CommandValue)
    → IsValid s
    → (apply_txn c (swap key read first) s).0 ≡ true
    → let t = (apply_txn c (swap key read first) s).1.1 in
      apply_txn c (swap key read second) t
      ≡ (false, (ok (record { revision = t.revision; responses = [] }), t))
swap-race c s key read first second v h =
    subst
      (λ r.
        let t = (apply_txn c (swap key r first) s).1.1 in
        apply_txn c (swap key r second) t
        ≡ (false, (ok (record { revision = t.revision; responses = [] }), t)))
      (succeeded c s key read first h)
      (swap-loses c (winner c s key first) key (mod_revision_of s key) second (λ e.
        absurd
          (omega (arith, e, mod_revision_of-winner c s key first, mod_revision_of-le s key v))))
