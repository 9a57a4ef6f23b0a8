-- ===== src/Mvcc/Deletion.antt =====
-- What a range delete removes: the live entries of the keys in its range, and no others.

use Prim.Native.Nat.{Ordering}
use nodejs_k8s.Prelude.{
  nat_eq, text_eq, text_beq_iff, ℕ, Text, Bool, true, false, ◌&&◌, ◌||◌, Option, none, some, List,
  [], ◌∷◌, ◌==◌, ◌≡◌, refl, ap, ◌∙◌, arith, filter, any, if◌then◌else◌,
}
use nodejs_k8s.Prelude.Map
use nodejs_k8s.Prelude.Sort.{insert, sort_from, sort}
use nodejs_k8s.Mvcc.Types.{Entry, Event, Store, Watcher}
use nodejs_k8s.Mvcc.Read.{
  chain_of, scan, live, entry_at, text_compare, sorted_keys, in_range, matching_keys, is_empty, nul,
}
use nodejs_k8s.Mvcc.Write.{
  delete_key, delete_keys, delete_at, delete_entry, delete_event, tombstone,
}
use nodejs_k8s.Mvcc.Watch.{covers}
use nodejs_k8s.Mvcc.Leases.{delete_each}
use nodejs_k8s.Mvcc.Lookup.{entry_at-appended}

-- Is `key` among the keys?
abbrev pub member : Text → List Text → Bool
member key = any (λ k. k == key)

member-insert :
    (cmp : Text → Text → Ordering) (key a : Text) (ks : List Text)
    → member key (insert cmp a ks) ≡ (a == key || member key ks)
unfolding any insert
member-insert cmp key a [] = refl
member-insert cmp key a (k ∷ ks) = ground (arith, member-insert cmp key a ks)

member-sort_from :
    (cmp : Text → Text → Ordering) (key : Text) (sorted ks : List Text)
    → member key (sort_from cmp sorted ks) ≡ (member key sorted || member key ks)
unfolding any sort_from
member-sort_from cmp key sorted [] = ground arith
member-sort_from cmp key sorted (k ∷ ks) =
    ground
      (arith, member-sort_from cmp key (insert cmp k sorted) ks, member-insert cmp key k sorted)

member-filter :
    (p : Text → Bool) (key : Text) (ks : List Text)
    → member key (filter p ks) ≡ (p key && member key ks)
unfolding any filter
member-filter p key [] = ground arith
member-filter p key (k ∷ ks) = ground (arith, member-filter p key ks, text_beq_iff k key)

member-keys :
    {V : Type 0} (key : Text) (m : Map.Map Text V) → member key (Map.keys m) ≡ Map.has key m
unfolding any Map.has Map.get
member-keys key [] = refl
member-keys key ((k, v) ∷ m) = ground (arith, member-keys key m)

member-sorted_keys : (key : Text) (s : Store) → member key (sorted_keys s) ≡ Map.has key s.keys
unfolding sorted_keys sort any
member-sorted_keys key s =
    member-sort_from text_compare key [] (Map.keys s.keys) ∙ member-keys key s.keys

-- the keys that a request for `key` and `range_end` is about
unfoldable pub covered : Text → Text → Text → Bool
covered key range_end k = if is_empty range_end then key == k else in_range key range_end k

member-matching_keys :
    (s : Store) (key range_end k : Text)
    → member k (matching_keys s key range_end) ≡ (covered key range_end k && Map.has k s.keys)
unfolding matching_keys covered any
member-matching_keys s key [] k = ground (arith, text_beq_iff key k)
member-matching_keys s key (c ∷ cs) k =
    member-filter (in_range key (c ∷ cs)) k (sorted_keys s)
    ∙ ap (λ b. in_range key (c ∷ cs) k && b) (member-sorted_keys k s)

entry_at-delete_key :
    (rev : ℕ) (key : Text) (s : Store) (j : Text)
    → entry_at (delete_key rev key s).1 j 0 ≡ (if key == j then none else entry_at s j 0)
unfolding delete_key
entry_at-delete_key rev key s j = found (entry_at s key 0) refl
  where
    found :
        (o : Option Entry)
        → entry_at s key 0 ≡ o
        → (let out : List Event × Store = elim o [
          | none ↦ ([], s)
          | some previous ↦ (delete_event rev key previous ∷ [], delete_entry rev key previous s)
        ] in
            entry_at out.1 j 0)
          ≡ (if key == j then none else entry_at s j 0)
    found none e = ground (arith, e, text_beq_iff key j)
    found (some previous) e =
        unfold delete_entry tombstone live in
        entry_at-appended s (delete_entry rev key previous s) key (tombstone rev) refl j

entry_at-delete_keys :
    (rev : ℕ) (keys : List Text) (s : Store) (j : Text)
    → entry_at (delete_keys rev keys s).1 j 0 ≡ (if member j keys then none else entry_at s j 0)
unfolding delete_keys any
entry_at-delete_keys rev [] s j = refl
entry_at-delete_keys rev (k ∷ ks) s j =
    ground
      (arith, entry_at-delete_keys rev ks (delete_key rev k s).1 j, entry_at-delete_key rev k s j)

entry_at-absent :
    (s : Store) (key : Text) (rev : ℕ) → Map.has key s.keys ≡ false → entry_at s key rev ≡ none
unfolding entry_at chain_of Map.has scan live
entry_at-absent s key rev h = ground (arith, h)

-- After a range delete the keys that it covers have no live entry, and every other key has the one it
-- had.
entry_at-delete_at :
    (rev : ℕ) (key range_end : Text) (s : Store) (j : Text)
    → entry_at (delete_at rev key range_end s).1 j 0
      ≡ (if covered key range_end j then none else entry_at s j 0)
unfolding delete_at
entry_at-delete_at rev key range_end s j = ground (
  arith,
  entry_at-delete_keys rev (matching_keys s key range_end) s j,
  member-matching_keys s key range_end j,
  entry_at-absent s j 0,
)

covers-eq-covered : (w : Watcher) (k : Text) → covers w k ≡ covered w.key w.range_end k
unfolding covers covered in_range
covers-eq-covered w k =
    ground (arith, text_beq_iff k w.key, text_beq_iff w.key k, text_beq_iff w.key nul)

-- Of the keys that the store has, a watcher covers exactly those that a range of the same key and end
-- reads.
covers-eq-matching_keys :
    (w : Watcher) (s : Store) (k : Text)
    → Map.has k s.keys ≡ true
    → covers w k ≡ member k (matching_keys s w.key w.range_end)
covers-eq-matching_keys w s k h =
    ground (arith, covers-eq-covered w k, member-matching_keys s w.key w.range_end k)

pub entry_at-delete_each :
    (rev : ℕ) (keys : List Text) (s : Store) (j : Text)
    → entry_at (delete_each rev keys s) j 0 ≡ (if member j keys then none else entry_at s j 0)
unfolding delete_each any covered
entry_at-delete_each rev [] s j = refl
entry_at-delete_each rev (k ∷ ks) s j =
    ground (
      arith,
      entry_at-delete_each rev ks (delete_at rev k [] s).1 j,
      entry_at-delete_at rev k [] s j,
    )
