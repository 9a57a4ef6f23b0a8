-- ===== src/Mvcc/Lookup.antt =====
-- What a put leaves to read, key by key, and what of it a transaction's guard sees.
use nodejs_k8s.Prelude.{
  nat_eq, text_eq, ℕ, Text, Bool, true, false, not, ◌&&◌, Option, none, some, List, [], ◌∷◌, ◌++◌,
  ◌==◌, ◌≡◌, ◌⊎◌, inl, inr, refl, sym, ap, ◌∙◌, nat_beq, if◌then◌else◌, Bool-cases,
}
use nodejs_k8s.Prelude.Map
use nodejs_k8s.Mvcc.Types.{Bytes, Entry, Store, ok, err, lease_not_found}
use nodejs_k8s.Mvcc.Read.{chain_of, scan, live, entry_at}
use nodejs_k8s.Mvcc.Write.{PutOptions, new_entry, put_event, put_entry, put_at}
use nodejs_k8s.Mvcc.Chains.{lookup_chain, chain_of-lookup, lookup_chain-set}

-- with no revision named, the newest entry is found
scan-append_one :
    (acc : Option Entry) (chain : List Entry) (e : Entry) → scan 0 acc (chain ++ e ∷ []) ≡ some e
unfolding scan
scan-append_one acc [] e = refl
scan-append_one acc (x ∷ xs) e = scan-append_one (some x) xs e

pub entry_at-appended :
    (s t : Store) (key : Text) (e : Entry)
    → t.keys ≡ Map.set key (chain_of s key ++ e ∷ []) s.keys
    → (j : Text) → entry_at t j 0 ≡ (if key == j then live (some e) else entry_at s j 0)
unfolding entry_at
entry_at-appended s t key e h j =
    ap (λ chain. live (scan 0 none chain))
      (chain_of-lookup t j
        ∙ ap (lookup_chain j) h
        ∙ lookup_chain-set key j (chain_of s key ++ e ∷ []) s.keys)
    ∙ choose (key == j)
  where
    choose :
        (b : Bool)
        → live (scan 0 none (if b then chain_of s key ++ e ∷ [] else lookup_chain j s.keys))
          ≡ (if b then live (some e) else live (scan 0 none (chain_of s j)))
    choose true = ap live (scan-append_one none (chain_of s key) e)
    choose false = ap (λ chain. live (scan 0 none chain)) (sym (chain_of-lookup s j))

pub live-new_entry :
    (rev : ℕ) (previous : Option Entry) (value : Bytes) (o : PutOptions)
    → live (some (new_entry rev previous value o)) ≡ some (new_entry rev previous value o)
unfolding live new_entry
live-new_entry rev none value o = refl
live-new_entry rev (some p) value o = refl

pub entry_at-put_entry :
    (rev : ℕ) (key : Text) (value : Bytes) (o : PutOptions) (s : Store) (j : Text)
    → let e = new_entry rev (entry_at s key 0) value o in
      entry_at (put_entry key (entry_at s key 0) e s) j 0
      ≡ (if key == j then live (some e) else entry_at s j 0)
unfolding put_entry
entry_at-put_entry rev key value o s j =
    entry_at-appended s _ key (new_entry rev (entry_at s key 0) value o) refl j

-- the test of `putAt` on the lease of the new entry
abbrev pub names_no_lease : Entry → Store → Bool
names_no_lease e s = not (nat_beq e.lease 0) && not (Map.has e.lease s.leases)

-- A put either throws, because it names a lease that is not there, and leaves the store as it was; or
-- it returns, the new entry is the live one of its key, and no other key has another live entry.
entry_at-put_at :
    (rev : ℕ) (key : Text) (value : Bytes) (o : PutOptions) (s : Store)
    → let e = new_entry rev (entry_at s key 0) value o in
      let r = put_at rev key value o s in
      ((names_no_lease e s ≡ true) × (r ≡ (err lease_not_found, s)))
      ⊎ ((names_no_lease e s ≡ false)
          × (r.0 ≡ ok (put_event rev key e (entry_at s key 0)))
          × ((j : Text) → entry_at r.1 j 0 ≡ (if key == j then some e else entry_at s j 0)))
unfolding put_at
entry_at-put_at rev key value o s =
    let e = new_entry rev (entry_at s key 0) value o in
    elim (Bool-cases (names_no_lease e s)) [
      | inl missing ↦ inl (missing, rw missing)
      | inr found ↦ inr (
        found,
        rw found,
        λ j. rw found (
            rw (← live-new_entry rev (entry_at s key 0) value o)
              (entry_at-put_entry rev key value o s j)),
      )
    ]
