-- ===== src/Mvcc/Snapshot/RoundTrip.antt =====
-- A store restored from a snapshot is the store that was saved.
use nodejs_k8s.Prelude.{
  ℕ, Text, Option, none, some, List, [], ◌∷◌, ◌≡◌, refl, ap, ◌∙◌, map, text_eq, nat_eq, All, arith,
}
use nodejs_k8s.Prelude.Map
use nodejs_k8s.Prelude.Map.{Map}
use nodejs_k8s.Mvcc.Types.{Codec, IsCodec, Entry, Kv, Event, EventKind, put, delete, Lease, Store}
use nodejs_k8s.Mvcc.Snapshot.{
  SavedEntry, save_entry, load_entry, save_kv, load_kv, save_kind, load_kind, save_event,
  load_event, snapshot, restore,
}

-- every lease stands under its own id
abbrev pub IsKeyed : Map ℕ Lease → Type 0
IsKeyed = All (λ (p : ℕ × Lease). p.0 ≡ p.1.id)

map-inverse :
    {A B : Type 0} (f : A → B) (g : B → A)
    → ((a : A) → g (f a) ≡ a)
    → (xs : List A) → map g (map f xs) ≡ xs
map-inverse f g h [] = refl
map-inverse f g h (x ∷ xs) = ground (arith, h x, map-inverse f g h xs)

module _ (c : Codec) (laws : IsCodec c) where
  load-save_entry : (e : Entry) → load_entry c (save_entry c e) ≡ e
  unfolding load_entry save_entry
  load-save_entry e = λ i. record e { value = laws.from-to_base64 e.value i }

  load-save_kv : (kv : Kv) → load_kv c (save_kv c kv) ≡ kv
  unfolding load_kv save_kv
  load-save_kv kv = λ i. record kv { value = laws.from-to_base64 kv.value i }

  load-save_kind : (k : EventKind) → load_kind c (save_kind c k) ≡ k
  unfolding load_kind save_kind
  load-save_kind (put kv) = ap put (load-save_kv kv)
  load-save_kind (delete key rev) = refl

  load-save_event : (e : Event) → load_event c (save_event c e) ≡ e
  unfolding load_event save_event
  load-save_event e = ground (arith, load-save_kind e.kind, load-save_prev e.prev_kv)
    where
      load-save_prev :
          (o : Option Kv)
          → (let p : Option Kv = elim o [
            | none ↦ none
            | some kv ↦ some (load_kv c (save_kv c kv))
          ] in
              p)
            ≡ o
      load-save_prev none = refl
      load-save_prev (some kv) = ap some (load-save_kv kv)

  load-save_chains :
      (keys : Map Text (List Entry))
      → map
          (λ (p : Text × List SavedEntry). (p.0, map (load_entry c) p.1))
          (map (λ (p : Text × List Entry). (p.0, map (save_entry c) p.1)) keys)
        ≡ keys
  load-save_chains =
      map-inverse _ _
        λ p. λ i. (p.0, map-inverse (save_entry c) (load_entry c) load-save_entry p.1 i)

  keyed-leases :
      (leases : Map ℕ Lease)
      → IsKeyed leases
      → map (λ (l : Lease). (l.id, l)) (map (λ (p : ℕ × Lease). p.1) leases) ≡ leases
  keyed-leases [] h = refl
  keyed-leases ((id, l) ∷ leases) h = ground (arith, h.0, keyed-leases leases h.1)

  -- Restoring a store's snapshot, into any store, gives back the revision, the compaction revision,
  -- every chain, the event log and the leases, provided that no key and no lease id stands twice and
  -- that every lease stands under its own id; the watchers and the deliveries are those of the store
  -- restored into.
  pub restore-snapshot :
      (s into : Store)
      → Map.IsDistinct s.keys
      → Map.IsDistinct s.leases
      → IsKeyed s.leases
      → restore c (snapshot c s) into ≡ record into {
        revision = s.revision;
        compact_revision = s.compact_revision;
        keys = s.keys;
        events = s.events;
        leases = s.leases;
      }
  unfolding restore snapshot
  restore-snapshot s into dk dl keyed =
      let keys = ap (Map.extend []) (load-save_chains s.keys) ∙ Map.extend-nil s.keys dk in
      let events = map-inverse (save_event c) (load_event c) load-save_event s.events in
      let leases = ap (Map.extend []) (keyed-leases s.leases keyed) ∙ Map.extend-nil s.leases dl in
      λ i. record into {
        revision = s.revision;
        compact_revision = s.compact_revision;
        keys = keys i;
        events = events i;
        leases = leases i;
      }
