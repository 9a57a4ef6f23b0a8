-- ===== src/Mvcc/Survivors.antt =====
-- What compaction keeps of one chain: of each read at or above its target the answer, since it drops
-- only what stands before the newest entry at or below the target.
use nodejs_k8s.Prelude.{
  nat_eq, ℕ, ◌≤◌, ◌<◌, true, Option, none, some, List, [], ◌∷◌, ◌++◌, ◌≡◌, ◌⊎◌, inl, inr, refl, sym,
  ap, ◌∙◌, All, arith, text_eq, leb, append_assoc, if◌then◌else◌, leb→le, Bool-cases,
}
use mathlib.Core.Path.{subst}
use nodejs_k8s.Mvcc.Types.{Entry}
use nodejs_k8s.Mvcc.Read.{scan, live}
use nodejs_k8s.Mvcc.Compact.{keep_from, kept_chain, is_lone_tombstone}
use nodejs_k8s.Mvcc.Valid.{IsChain, Rises, entry_rev}

-- "now", or a revision that compaction at `target` still answers
abbrev pub Answers : ℕ → ℕ → Type 0
Answers target rev = (rev ≡ 0) ⊎ (target ≤ rev)

Rises-before :
    (pre : List Entry) (e : Entry) (rest : List Entry)
    → Rises entry_rev (pre ++ e ∷ rest)
    → All (λ (x : Entry). x.rev ≤ e.rev) pre
Rises-before [] e rest h = tt
Rises-before (x ∷ xs) e rest h = (last xs h.0, Rises-before xs e rest h.1)
  where
    last : (ys : List Entry) → All (λ (y : Entry). x.rev ≤ y.rev) (ys ++ e ∷ rest) → x.rev ≤ e.rev
    last [] a = a.0
    last (y ∷ ys) a = last ys a.1

-- a scan that reaches `e` forgets what stood before it
scan-pass :
    (target rev : ℕ) (acc acc' : Option Entry) (pre : List Entry) (e : Entry) (rest : List Entry)
    → Answers target rev
    → e.rev ≤ target
    → All (λ (x : Entry). x.rev ≤ e.rev) pre
    → scan rev acc (pre ++ e ∷ rest) ≡ scan rev acc' (e ∷ rest)
unfolding scan
scan-pass target rev acc acc' [] e rest a le h = ground arith
scan-pass target rev acc acc' (x ∷ xs) e rest a le h =
    ground (arith, h.0, scan-pass target rev (some x) acc' xs e rest a le h.1)

All-suffix {ℓ} : {A : Type 0} (P : A → Type ℓ) (pre xs : List A) → All P (pre ++ xs) → All P xs
All-suffix P [] xs h = h
All-suffix P (y ∷ ys) xs h = All-suffix P ys xs h.1

Rises-suffix : (pre xs : List Entry) → Rises entry_rev (pre ++ xs) → Rises entry_rev xs
Rises-suffix [] xs h = h
Rises-suffix (y ∷ ys) xs h = Rises-suffix ys xs h.1

IsChain-suffix : (now : ℕ) (pre xs : List Entry) → IsChain now (pre ++ xs) → IsChain now xs
IsChain-suffix now pre xs h = record {
  rises = Rises-suffix pre xs h.rises;
  positive = All-suffix (λ (e : Entry). 0 < e.rev) pre xs h.positive;
  bounded = All-suffix (λ (e : Entry). e.rev ≤ now) pre xs h.bounded;
}

module _ (target rev : ℕ) (a : Answers target rev) where
  scan-keep_from :
      (whole pre rest : List Entry)
      → whole ≡ pre ++ rest
      → Rises entry_rev whole
      → scan rev none (keep_from target whole rest) ≡ scan rev none whole
  unfolding keep_from
  scan-keep_from whole pre [] split h = refl
  scan-keep_from whole pre (e ∷ rest) split h = elim (Bool-cases (leb e.rev target)) [
    | inl old ↦
        let h' : Rises entry_rev (pre ++ e ∷ rest) = subst (Rises entry_rev) split h in
        rw old (
          scan-keep_from (e ∷ rest) (e ∷ []) rest refl (Rises-suffix pre (e ∷ rest) h')
          ∙ sym (
              scan-pass target rev none none pre e rest a (leb→le e.rev target old)
                (Rises-before pre e rest h'))
          ∙ ap (scan rev none) (sym split))
    | inr new ↦
        rw new (
          scan-keep_from whole (pre ++ e ∷ []) rest (split ∙ sym (append_assoc pre (e ∷ []) rest))
            h)
  ]

keep_from-suffix :
    (target : ℕ) (whole pre rest : List Entry)
    → whole ≡ pre ++ rest
    → (dropped : List Entry) × (whole ≡ dropped ++ keep_from target whole rest)
unfolding keep_from
keep_from-suffix target whole pre [] split = ([], refl)
keep_from-suffix target whole pre (e ∷ rest) split = elim (Bool-cases (leb e.rev target)) [
  | inl old ↦
      let (dropped, split') = keep_from-suffix target (e ∷ rest) (e ∷ []) rest refl in
      (
        pre ++ dropped,
        rw old (split ∙ ap (λ xs. pre ++ xs) split' ∙ sym (append_assoc pre dropped _)),
      )
  | inr new ↦ rw new (
      keep_from-suffix target whole (pre ++ e ∷ []) rest
        (split ∙ sym (append_assoc pre (e ∷ []) rest)))
]

scan-kept_chain :
    (target rev : ℕ) (chain : List Entry)
    → Answers target rev
    → Rises entry_rev chain
    → scan rev none (kept_chain target chain) ≡ scan rev none chain
unfolding kept_chain
scan-kept_chain target rev chain a h = scan-keep_from target rev a chain [] chain refl h

pub IsChain-kept_chain :
    (now target : ℕ) (chain : List Entry)
    → IsChain now chain
    → IsChain now (kept_chain target chain)
unfolding kept_chain
IsChain-kept_chain now target chain h =
    let (dropped, split) = keep_from-suffix target chain [] chain refl in
    IsChain-suffix now dropped (keep_from target chain chain) (subst (IsChain now) split h)

-- what compaction leaves of a chain
unfoldable pub survivors : ℕ → List Entry → List Entry
survivors target chain =
    if is_lone_tombstone (kept_chain target chain) then [] else kept_chain target chain

live-lone_tombstone :
    (rev : ℕ) (chain : List Entry)
    → is_lone_tombstone chain ≡ true
    → live (scan rev none chain) ≡ none
unfolding is_lone_tombstone live scan
live-lone_tombstone rev [] h = refl
live-lone_tombstone rev (e ∷ []) h = ground (arith, h)
live-lone_tombstone rev (e ∷ e' ∷ es) h = cc

pub live-survivors :
    (target rev : ℕ) (chain : List Entry)
    → Answers target rev
    → Rises entry_rev chain
    → live (scan rev none (survivors target chain)) ≡ live (scan rev none chain)
unfolding survivors
live-survivors target rev chain a h =
    elim (Bool-cases (is_lone_tombstone (kept_chain target chain))) [
      | inl lone ↦ rw lone (
          unfold scan live in
          sym (live-lone_tombstone rev (kept_chain target chain) lone)
          ∙ ap live (scan-kept_chain target rev chain a h))
      | inr more ↦ rw more (ap live (scan-kept_chain target rev chain a h))
    ]
