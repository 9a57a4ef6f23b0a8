-- ===== src/Mvcc/Chains.antt =====
-- Lemmas on the chains of a store: how a write, a removal and a read of an old revision see them.
use mathlib.Core.Path.{subst}
use nodejs_k8s.Prelude.{
  ℕ, ◌+◌, Text, none, some, List, [], ◌∷◌, ◌++◌, ◌==◌, ◌≡◌, refl, ap, ◌∙◌, All, arith, text_eq,
  text_beq_iff, length, last?, last?-append_one, drop_last-append_one, append-nil, append_assoc,
  if◌then◌else◌, length-append, Bool-cases, inl, inr,
}
use nodejs_k8s.Prelude.Map
use nodejs_k8s.Prelude.Map.{Map}
use nodejs_k8s.Mvcc.Types.{Entry, Event, event_key, Store}
use nodejs_k8s.Mvcc.Read.{chain_of}
use nodejs_k8s.Mvcc.Batch.{pop_chain, pop_key, pop_events}

-- `keys.get(key)`, an absent key having no entries
abbrev pub lookup_chain : Text → Map Text (List Entry) → List Entry
lookup_chain key keys = elim (Map.get key keys) [ none ↦ [] | some chain ↦ chain ]

pub chain_of-lookup : (s : Store) (key : Text) → chain_of s key ≡ lookup_chain key s.keys
unfolding chain_of
chain_of-lookup s key = refl

pub lookup_chain-set :
    (k j : Text) (chain : List Entry) (keys : Map Text (List Entry))
    → lookup_chain j (Map.set k chain keys) ≡ (if k == j then chain else lookup_chain j keys)
lookup_chain-set k j chain keys = ground (arith, Map.get-set k j chain keys)

-- how many events are about `key`
abbrev pub count_key : Text → List Event → ℕ
count_key key [] = 0
count_key key (e ∷ es) = (if event_key e == key then 1 else 0) + count_key key es

pub count_key-append :
    (key : Text) (xs ys : List Event)
    → count_key key (xs ++ ys) ≡ count_key key xs + count_key key ys
count_key-append key [] ys = omega arith
count_key-append key (x ∷ xs) ys = omega (arith, count_key-append key xs ys)

abbrev pub IsStamped : ℕ → List Entry → Type 0
IsStamped rev = All (λ (e : Entry). e.rev ≡ rev)

record Snoc (added : List Entry) : Type 0 where
  init : List Entry
  final : Entry
  split : added ≡ init ++ final ∷ []

snoc : (x : Entry) (xs : List Entry) → Snoc (x ∷ xs)
snoc x [] = record { init = []; final = x; split = refl }
snoc x (y ∷ ys) =
    let rest = snoc y ys in
    record { init = x ∷ rest.init; final = rest.final; split = ap (λ zs. x ∷ zs) rest.split }

IsStamped-init :
    (rev : ℕ) (xs : List Entry) (x : Entry) → IsStamped rev (xs ++ x ∷ []) → IsStamped rev xs
IsStamped-init rev [] x h = tt
IsStamped-init rev (y ∷ ys) x h = (h.0, IsStamped-init rev ys x h.1)

IsStamped-final :
    (rev : ℕ) (xs : List Entry) (x : Entry) → IsStamped rev (xs ++ x ∷ []) → x.rev ≡ rev
IsStamped-final rev [] x h = h.0
IsStamped-final rev (y ∷ ys) x h = IsStamped-final rev ys x h.1

pop_chain-append_one :
    (rev : ℕ) (chain : List Entry) (x : Entry)
    → x.rev ≡ rev
    → pop_chain rev (chain ++ x ∷ []) ≡ chain
unfolding pop_chain
pop_chain-append_one rev chain x h =
    ground (arith, last?-append_one chain x, drop_last-append_one chain x, h)

lookup_chain-pop_key :
    (rev : ℕ) (k j : Text) (keys : Map Text (List Entry))
    → lookup_chain j (pop_key rev k keys)
      ≡ (if k == j then pop_chain rev (lookup_chain j keys) else lookup_chain j keys)
unfolding pop_key pop_chain last?
lookup_chain-pop_key rev k j keys =
    ground
      (arith, text_beq_iff k j, lookup_chain-set k j (pop_chain rev (lookup_chain k keys)) keys)

module _ (rev : ℕ) (base : List Entry) (x : Entry) (xs : List Entry)
    (stamped : IsStamped rev (x ∷ xs)) where
  open snoc x xs use {init, final, split}

  pop_chain-append : pop_chain rev (base ++ x ∷ xs) ≡ base ++ init
  pop_chain-append = rw split (
      rw (← append_assoc) (
        pop_chain-append_one rev (base ++ init) final
          (IsStamped-final rev init final (subst (IsStamped rev) split stamped))))

  IsStamped-snoc : IsStamped rev init
  IsStamped-snoc = IsStamped-init rev init final (subst (IsStamped rev) split stamped)

  length-snoc : length init + 1 ≡ length (x ∷ xs)
  length-snoc = omega (arith, ap length split, length-append init (final ∷ []))

-- Popping once for every event undoes what was appended under the events' revision.
pub lookup_chain-pop_events :
    (rev : ℕ) (es : List Event) (keys : Map Text (List Entry)) (j : Text) (base added : List Entry)
    → lookup_chain j keys ≡ base ++ added
    → IsStamped rev added
    → length added ≡ count_key j es
    → lookup_chain j (pop_events rev es keys) ≡ base
unfolding pop_events
lookup_chain-pop_events rev [] keys j base [] h stamped n = rw h (append-nil base)
lookup_chain-pop_events rev [] keys j base (x ∷ xs) h stamped n = absurd (omega arith)
lookup_chain-pop_events rev (e ∷ es) keys j base [] h stamped n =
    lookup_chain-pop_events rev es (pop_key rev (event_key e) keys) j base []
      (lookup_chain-pop_key rev (event_key e) j keys ∙ ground (arith, h, n)) stamped
      (ground (arith, n))
lookup_chain-pop_events rev (e ∷ es) keys j base (x ∷ xs) h stamped n =
    elim (Bool-cases (event_key e == j)) [
      | inl same ↦
          lookup_chain-pop_events rev es (pop_key rev (event_key e) keys) j base (snoc x xs).init
            (lookup_chain-pop_key rev (event_key e) j keys
              ∙ ground (arith, same, h, pop_chain-append rev base x xs stamped))
            (IsStamped-snoc rev base x xs stamped)
            (ground (arith, n, same, length-snoc rev base x xs stamped))
      | inr other ↦
          lookup_chain-pop_events rev es (pop_key rev (event_key e) keys) j base (x ∷ xs)
            (lookup_chain-pop_key rev (event_key e) j keys ∙ ground (arith, other, h)) stamped
            (ground (arith, n, other))
    ]

IsDistinct-pop_key :
    (rev : ℕ) (k : Text) (keys : Map Text (List Entry))
    → Map.IsDistinct keys
    → Map.IsDistinct (pop_key rev k keys)
unfolding pop_key
IsDistinct-pop_key rev k keys d =
    elim (Map.get k keys)
      as (λ found. Map.IsDistinct (
        let popped : Map Text (List Entry) = elim found [
          | none ↦ keys
          | some chain ↦ Map.set k (pop_chain rev chain) keys
        ] in
        popped)) [ none ↦ d | some chain ↦ Map.IsDistinct-set k (pop_chain rev chain) keys d ]

pub IsDistinct-pop_events :
    (rev : ℕ) (es : List Event) (keys : Map Text (List Entry))
    → Map.IsDistinct keys
    → Map.IsDistinct (pop_events rev es keys)
unfolding pop_events
IsDistinct-pop_events rev [] keys d = d
IsDistinct-pop_events rev (e ∷ es) keys d =
    IsDistinct-pop_events rev es (pop_key rev (event_key e) keys)
      (IsDistinct-pop_key rev (event_key e) keys d)
