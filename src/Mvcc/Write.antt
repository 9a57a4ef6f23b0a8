-- ===== src/Mvcc/Write.antt =====
-- Writes of store/mvcc.js: `putAt` and `deleteAt`. A method that may throw returns the store beside
-- the result, so that what was written before a throw stays visible.
use nodejs_k8s.Prelude.{
  ℕ, Text, Bool, true, false, not, ◌&&◌, ◌+◌, Option, none, some, List, [], ◌∷◌, ◌++◌, ◌==◌,
  text_eq, nat_eq, nat_beq, filter, if◌then◌else◌,
}
use nodejs_k8s.Prelude.Map
use nodejs_k8s.Prelude.Map.{Map}
use nodejs_k8s.Mvcc.Types.{
  Bytes, Entry, Event, EventKind, Lease, Store, Result, ok, err, lease_not_found,
}
use nodejs_k8s.Mvcc.Read.{entry_at, chain_of, kv_of, matching_keys}

pub record PutOptions : Type 0 where
  pub lease : ℕ
  pub ignore_value : Bool
  pub ignore_lease : Bool

-- `set.add(key)` and `set.delete(key)` on a `Set` of keys
unfoldable pub contains : Text → List Text → Bool
contains key [] = false
contains key (k ∷ ks) = if k == key then true else contains key ks

unfoldable pub set_add : Text → List Text → List Text
unfolding contains
set_add key ks = if contains key ks then ks else ks ++ key ∷ []

unfoldable pub set_delete : Text → List Text → List Text
set_delete key ks = filter (λ k. not (k == key)) ks

-- `this.leases.get(id)?.keys.delete(key)`, with the test that the lease id is not 0
unfoldable pub detach : ℕ → Text → Map ℕ Lease → Map ℕ Lease
detach id key leases = if nat_beq id 0 then leases else elim (Map.get id leases) [
  | none ↦ leases
  | some l ↦ Map.set id (record l { keys = set_delete key l.keys }) leases
]

-- `this.leases.get(id).keys.add(key)`, under the same test
unfoldable pub attach : ℕ → Text → Map ℕ Lease → Map ℕ Lease
attach id key leases = if nat_beq id 0 then leases else elim (Map.get id leases) [
  | none ↦ leases
  | some l ↦ Map.set id (record l { keys = set_add key l.keys }) leases
]

unfoldable pub detach_previous : Option Entry → Text → Map ℕ Lease → Map ℕ Lease
detach_previous none key leases = leases
detach_previous (some previous) key leases = detach previous.lease key leases

unfoldable pub new_entry : ℕ → Option Entry → Bytes → PutOptions → Entry
new_entry rev none value o = record {
  rev = rev;
  value = value;
  version = 1;
  create_revision = rev;
  lease = o.lease;
  deleted = false;
}
new_entry rev (some previous) value o = record {
  rev = rev;
  value = if o.ignore_value then previous.value else value;
  version = previous.version + 1;
  create_revision = previous.create_revision;
  lease = if o.ignore_lease then previous.lease else o.lease;
  deleted = false;
}

unfoldable pub put_event : ℕ → Text → Entry → Option Entry → Event
put_event rev key entry previous = record {
  rev = rev;
  kind = EventKind.put (kv_of key entry);
  prev_kv = elim previous [ none ↦ none | some p ↦ some (kv_of key p) ];
}

-- what `putAt` does once the lease has been found
unfoldable pub put_entry : Text → Option Entry → Entry → Store → Store
put_entry key previous entry s = record s {
  keys = Map.set key (chain_of s key ++ entry ∷ []) s.keys;
  leases = attach entry.lease key (detach_previous previous key s.leases);
  events = s.events ++ put_event entry.rev key entry previous ∷ [];
}

unfoldable pub put_at : ℕ → Text → Bytes → PutOptions → Store → Result Event × Store
put_at rev key value o s =
    let previous = entry_at s key 0 in
    let entry = new_entry rev previous value o in
    if not (nat_beq entry.lease 0) && not (Map.has entry.lease s.leases)
    then (err lease_not_found, s)
    else (ok (put_event rev key entry previous), put_entry key previous entry s)

unfoldable pub tombstone : ℕ → Entry
tombstone rev = record {
  rev = rev;
  value = [];
  version = 0;
  create_revision = 0;
  lease = 0;
  deleted = true;
}

unfoldable pub delete_event : ℕ → Text → Entry → Event
delete_event rev key previous = record {
  rev = rev;
  kind = EventKind.delete key rev;
  prev_kv = some (kv_of key previous);
}

unfoldable pub delete_entry : ℕ → Text → Entry → Store → Store
delete_entry rev key previous s = record s {
  keys = Map.set key (chain_of s key ++ tombstone rev ∷ []) s.keys;
  leases = detach previous.lease key s.leases;
  events = s.events ++ delete_event rev key previous ∷ [];
}

-- one round of the loop of `deleteAt`
unfoldable pub delete_key : ℕ → Text → Store → List Event × Store
delete_key rev key s = elim (entry_at s key 0) [
  | none ↦ ([], s)
  | some previous ↦ (delete_event rev key previous ∷ [], delete_entry rev key previous s)
]

unfoldable pub delete_keys : ℕ → List Text → Store → List Event × Store
delete_keys rev [] s = ([], s)
delete_keys rev (key ∷ keys) s =
    let (first, s') = delete_key rev key s in
    let (later, s'') = delete_keys rev keys s' in (first ++ later, s'')

unfoldable pub delete_at : ℕ → Text → Text → Store → List Event × Store
unfolding delete_keys
delete_at rev key range_end s = delete_keys rev (matching_keys s key range_end) s
