-- ===== src/Mvcc/Snapshot.antt =====
-- Snapshots: `snapshot` and `restore` of store/mvcc.js. Values travel as base64 text.
pub mod RoundTrip
use nodejs_k8s.Prelude.{ℕ, Text, Bool, Option, none, some, List, [], map, text_eq, nat_eq}
use nodejs_k8s.Prelude.Map
use nodejs_k8s.Prelude.Map.{Map}
use nodejs_k8s.Mvcc.Types.{Codec, Entry, Kv, Event, EventKind, put, delete, Lease, Store}

pub record SavedEntry : Type 0 where
  pub rev : ℕ
  pub value : Text
  pub version : ℕ
  pub create_revision : ℕ
  pub lease : ℕ
  pub deleted : Bool

pub record SavedKv : Type 0 where
  pub key : Text
  pub value : Text
  pub create_revision : ℕ
  pub mod_revision : ℕ
  pub version : ℕ
  pub lease : ℕ

-- the `kv` of a delete event has no value, before and after
pub data SavedKind : Type 0 where
  saved_put : SavedKv → SavedKind
  saved_delete : Text → ℕ → SavedKind

pub record SavedEvent : Type 0 where
  pub rev : ℕ
  pub kind : SavedKind
  pub prev_kv : Option SavedKv

pub record Snapshot : Type 0 where
  pub revision : ℕ
  pub compact_revision : ℕ
  pub keys : List (Text × List SavedEntry)
  pub events : List SavedEvent
  pub leases : List Lease

module _ (c : Codec) where
  save_entry : Entry → SavedEntry
  save_entry e = record {
    rev = e.rev;
    value = c.to_base64 e.value;
    version = e.version;
    create_revision = e.create_revision;
    lease = e.lease;
    deleted = e.deleted;
  }

  load_entry : SavedEntry → Entry
  load_entry e = record {
    rev = e.rev;
    value = c.from_base64 e.value;
    version = e.version;
    create_revision = e.create_revision;
    lease = e.lease;
    deleted = e.deleted;
  }

  save_kv : Kv → SavedKv
  save_kv kv = record {
    key = kv.key;
    value = c.to_base64 kv.value;
    create_revision = kv.create_revision;
    mod_revision = kv.mod_revision;
    version = kv.version;
    lease = kv.lease;
  }

  load_kv : SavedKv → Kv
  load_kv kv = record {
    key = kv.key;
    value = c.from_base64 kv.value;
    create_revision = kv.create_revision;
    mod_revision = kv.mod_revision;
    version = kv.version;
    lease = kv.lease;
  }

  save_kind : EventKind → SavedKind
  save_kind (put kv) = saved_put (save_kv kv)
  save_kind (delete key rev) = saved_delete key rev

  load_kind : SavedKind → EventKind
  load_kind (saved_put kv) = put (load_kv kv)
  load_kind (saved_delete key rev) = delete key rev

  save_event : Event → SavedEvent
  unfolding save_kind save_kv
  save_event e = record {
    rev = e.rev;
    kind = save_kind e.kind;
    prev_kv = elim e.prev_kv [ none ↦ none | some kv ↦ some (save_kv kv) ];
  }

  load_event : SavedEvent → Event
  unfolding load_kind load_kv
  load_event e = record {
    rev = e.rev;
    kind = load_kind e.kind;
    prev_kv = elim e.prev_kv [ none ↦ none | some kv ↦ some (load_kv kv) ];
  }

  unfoldable pub snapshot : Store → Snapshot
  unfolding save_entry save_event
  snapshot s = record {
    revision = s.revision;
    compact_revision = s.compact_revision;
    keys = map (λ (p : Text × List Entry). (p.0, map save_entry p.1)) s.keys;
    events = map save_event s.events;
    leases = map (λ (p : ℕ × Lease). p.1) s.leases;
  }

  -- what is not in the snapshot, such as the watchers, stays
  unfoldable pub restore : Snapshot → Store → Store
  unfolding load_entry load_event
  restore snap s = record s {
    revision = snap.revision;
    compact_revision = snap.compact_revision;
    keys =
        Map.extend [] (map (λ (p : Text × List SavedEntry). (p.0, map load_entry p.1)) snap.keys);
    events = map load_event snap.events;
    leases = Map.extend [] (map (λ (l : Lease). (l.id, l)) snap.leases);
  }
