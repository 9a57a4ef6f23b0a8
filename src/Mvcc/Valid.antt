-- ===== src/Mvcc/Valid.antt =====
-- The well-formedness invariant of a store: revisions grow along every chain and along the event log,
-- none is ahead of the store's revision, and no event is at or below the compaction point.
use nodejs_k8s.Prelude.{
  nat_eq, ℕ, ◌+◌, ◌≤◌, ◌<◌, Text, List, [], ◌∷◌, ◌++◌, ◌≡◌, All, arith, text_eq, All-append,
}
use nodejs_k8s.Prelude.Map
use nodejs_k8s.Prelude.Map.{Map}
use nodejs_k8s.Mvcc.Types.{Entry, Event, Store}
use nodejs_k8s.Mvcc.Read.{chain_of}
use nodejs_k8s.Mvcc.Chains.{IsStamped}

abbrev pub Rises {ℓ} : {A : Type ℓ} → (A → ℕ) → List A → Type 0
Rises rev [] = Unit
Rises rev (x ∷ xs) = All (λ y. rev x ≤ rev y) xs × Rises rev xs

abbrev pub entry_rev : Entry → ℕ
entry_rev e = e.rev

abbrev pub event_rev : Event → ℕ
event_rev e = e.rev

-- a chain whose revisions rise and are between 1 and `now`
pub record IsChain (now : ℕ) (chain : List Entry) : Type 0 where
  pub rises : Rises entry_rev chain
  pub positive : All (λ (e : Entry). 0 < e.rev) chain
  pub bounded : All (λ (e : Entry). e.rev ≤ now) chain

pub record IsValid (s : Store) : Type 0 where
  pub chains : (k : Text) → IsChain s.revision (chain_of s k)
  pub distinct : Map.IsDistinct s.keys
  pub log_rises : Rises event_rev s.events
  pub log_bounded : All (λ (e : Event). e.rev ≤ s.revision) s.events
  pub log_uncompacted : All (λ (e : Event). s.compact_revision < e.rev) s.events
  pub compact-le-revision : s.compact_revision ≤ s.revision

pub All-map {ℓ κ μ} :
    {A : Type ℓ} (P : A → Type κ) (Q : A → Type μ) (xs : List A)
    → ((x : A) → P x → Q x)
    → All P xs
    → All Q xs
All-map P Q [] f h = tt
All-map P Q (x ∷ xs) f h = (f x h.0, All-map P Q xs f h.1)

pub Rises-append {ℓ} :
    {A : Type ℓ} (rev : A → ℕ) (now : ℕ) (xs ys : List A)
    → Rises rev xs
    → All (λ x. rev x ≤ now) xs
    → All (λ y. rev y ≡ now + 1) ys
    → Rises rev (xs ++ ys)
Rises-append rev now [] [] rx bx by = tt
Rises-append rev now [] (y ∷ ys) rx bx by = (
  All-map (λ z. rev z ≡ now + 1) (λ z. rev y ≤ rev z) ys (λ z e. omega (arith, e, by.0)) by.1,
  Rises-append rev now [] ys tt tt by.1,
)
Rises-append rev now (x ∷ xs) ys rx bx by = (
  All-append (λ z. rev x ≤ rev z) xs ys rx.0
      (All-map (λ z. rev z ≡ now + 1) (λ z. rev x ≤ rev z) ys (λ z e. omega (arith, e, bx.0)) by),
  Rises-append rev now xs ys rx.1 bx.1 by,
)

pub IsChain-append :
    (now : ℕ) (chain added : List Entry)
    → IsChain now chain
    → IsStamped (now + 1) added
    → IsChain (now + 1) (chain ++ added)
IsChain-append now chain added h st = record {
  rises = Rises-append entry_rev now chain added h.rises h.bounded st;
  positive =
      All-append (λ (e : Entry). 0 < e.rev) chain added h.positive
        (All-map (λ (e : Entry). e.rev ≡ now + 1) (λ (e : Entry). 0 < e.rev) added
          (λ e r. omega (arith, r)) st);
  bounded =
      All-append (λ (e : Entry). e.rev ≤ now + 1) chain added
        (All-map (λ (e : Entry). e.rev ≤ now) (λ (e : Entry). e.rev ≤ now + 1) chain
          (λ e r. omega (arith, r)) h.bounded)
        (All-map (λ (e : Entry). e.rev ≡ now + 1) (λ (e : Entry). e.rev ≤ now + 1) added
          (λ e r. omega (arith, r)) st);
}
