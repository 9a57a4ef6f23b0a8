-- ===== src/Mvcc/Types.antt =====
-- The state of class `Store` (store/mvcc.js), its events and errors, and the commands it applies.
-- Keys are texts, values are byte lists, revisions and lease ids are natural numbers; 0 stands for
-- "none" where the source tests a number for truth.
use nodejs_k8s.Prelude.{ℕ, Text, Bool, Option, List, ◌≡◌}
use nodejs_k8s.Prelude.Map.{Map}

abbrev pub Bytes : Type 0
Bytes = List ℕ

-- node's `Buffer` conversions that the source calls: base64 both ways, and bytes read as UTF-8
pub record Codec : Type 0 where
  pub to_base64 : Bytes → Text
  pub from_base64 : Text → Bytes
  pub to_text : Bytes → Text

-- decoding undoes encoding, as node documents
pub record IsCodec (c : Codec) : Type 0 where
  pub from-to_base64 : (b : Bytes) → c.from_base64 (c.to_base64 b) ≡ b

-- one element of a key's chain
pub record Entry : Type 0 where
  pub rev : ℕ
  pub value : Bytes
  pub version : ℕ
  pub create_revision : ℕ
  pub lease : ℕ
  pub deleted : Bool

pub record Kv : Type 0 where
  pub key : Text
  pub value : Bytes
  pub create_revision : ℕ
  pub mod_revision : ℕ
  pub version : ℕ
  pub lease : ℕ

-- the `kv` of an event: a whole key-value pair for a put, key and revision for a delete
pub data EventKind : Type 0 where
  put : Kv → EventKind
  delete : Text → ℕ → EventKind

pub record Event : Type 0 where
  pub rev : ℕ
  pub kind : EventKind
  pub prev_kv : Option Kv

-- `event.kv.key`
abbrev kind_key : EventKind → Text
kind_key (EventKind.put kv) = kv.key
kind_key (EventKind.delete key rev) = key

unfoldable pub event_key : Event → Text
event_key e = kind_key e.kind

pub record Lease : Type 0 where
  pub id : ℕ
  pub ttl : ℕ
  pub expiry : ℕ
  pub keys : List Text

-- a listener is known by a number
pub record Watcher : Type 0 where
  pub id : ℕ
  pub key : Text
  pub range_end : Text
  pub prev_kv : Bool
  pub listeners : List ℕ

-- one call `listener(mine, this.revision)`
pub record Delivery : Type 0 where
  pub watcher : ℕ
  pub listener : ℕ
  pub events : List Event
  pub revision : ℕ

-- `delivered` records, in order, the listener calls made so far
pub record Store : Type 0 where
  pub revision : ℕ
  pub compact_revision : ℕ
  pub keys : Map Text (List Entry)
  pub events : List Event
  pub leases : Map ℕ Lease
  pub watchers : List Watcher
  pub next_watch_id : ℕ
  pub delivered : List Delivery

-- the messages of the `StoreError`s that this file throws
pub data StoreError : Type 0 where
  compacted future_revision lease_not_found unknown_operation : StoreError

pub data Result {ℓ} (A : Type ℓ) : Type ℓ where
  ok : A → Result A
  err : StoreError → Result A

-- the numeric code that clients switch on
unfoldable pub code : StoreError → ℕ
code compacted = 11
code future_revision = 13
code lease_not_found = 15
code unknown_operation = 3
