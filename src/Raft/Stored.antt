-- ===== src/Raft/Stored.antt =====
-- What a follower's log holds after the entries of a request are stored (`handleAppend` of
-- store/raft.js).
use nodejs_k8s.Prelude.{
  ℕ, ◌<◌, ◌≤◌, true, Bool, none, some, List, [], ◌∷◌, ◌++◌, ◌≡◌, ◌∙◌, refl, sym, ap, arith, ltb,
  leb, nat_beq, All, find, filter, nat_eq, ◌⊎◌, inl, inr, Bool-cases, Option-cases,
}
use mathlib.Core.Path.{subst}
use nodejs_k8s.Raft.Types.{LogEntry, Raft}
use nodejs_k8s.Raft.Log.{entry_at, rewrite}
use nodejs_k8s.Raft.Following.{diverges_at, holds_entry, store_entries}

-- the indices go up
unfoldable pub Ascends : {Cmd : Type 0} → List (LogEntry Cmd) → Type 0
Ascends [] = Unit
Ascends (e ∷ es) = All (λ x. e.index < x.index) es × Ascends es

All-zip :
    {A : Type 0} {P Q R : A → Type 0} (xs : List A)
    → ((x : A) → P x → Q x → R x)
    → All P xs
    → All Q xs
    → All R xs
All-zip [] f p q = tt
All-zip (x ∷ xs) f p q = (f x p.0 q.0, All-zip xs f p.1 q.1)

module _ {Cmd : Type 0} where
  abbrev at_index : ℕ → LogEntry Cmd → Bool
  at_index index x = nat_beq x.index index

  find-kept :
      (at index : ℕ) (log new : List (LogEntry Cmd)) (x : LogEntry Cmd)
      → index < at
      → find (at_index index) log ≡ some x
      → find (at_index index) (filter (λ (y : LogEntry Cmd). ltb y.index at) log ++ new) ≡ some x
  unfolding find filter
  find-kept at index [] new x h f = absurd (ground (arith, f))
  find-kept at index (y ∷ log) new x h f = elim (Bool-cases (nat_beq y.index index)) [
    | inl same ↦ ground (arith, same, h, f)
    | inr other ↦
        let ih = find-kept at index log new x h (ground (arith, other, f)) in
        elim (Bool-cases (ltb y.index at)) [
          | inl low ↦ ground (arith, low, other, ih)
          | inr high ↦ ground (arith, high, ih)
        ]
  ]

  find-new :
      (at index : ℕ) (log new : List (LogEntry Cmd))
      → at ≤ index
      → find (at_index index) (filter (λ (y : LogEntry Cmd). ltb y.index at) log ++ new)
        ≡ find (at_index index) new
  unfolding find filter
  find-new at index [] new h = refl
  find-new at index (y ∷ log) new h = ground (arith, h, find-new at index log new h)

  found-new :
      (at : ℕ) (es : List (LogEntry Cmd))
      → Ascends es
      → All
          (λ (e : LogEntry Cmd).
            at ≤ e.index
            → find (at_index e.index) (filter (λ (y : LogEntry Cmd). leb at y.index) es) ≡ some e)
          es
  unfolding find filter Ascends
  found-new at [] h = tt
  found-new at (e ∷ es) (low, h) = (
    λ le. ground (arith, le),
    All-zip es (λ x lt ih le. ground (arith, lt, ih le)) low (found-new at es h),
  )

-- the replica has an entry of this index and term
unfoldable pub IsStored : {Cmd State Reply : Type 0} → Raft Cmd State Reply → LogEntry Cmd → Type 0
IsStored {Cmd} r e = (x : LogEntry Cmd) × ((entry_at r e.index ≡ some x) × (x.term ≡ e.term))

module _ {Cmd State Reply : Type 0} where
  entry_at-find :
      (r : Raft Cmd State Reply) (index : ℕ)
      → r.snapshot_index < index
      → entry_at r index ≡ find (at_index index) r.log
  unfolding entry_at
  entry_at-find r index h = ground (arith, h)

  held-IsStored :
      (r : Raft Cmd State Reply) (e : LogEntry Cmd)
      → holds_entry e (entry_at r e.index) ≡ true
      → IsStored r e
  unfolding holds_entry IsStored
  held-IsStored r e h = elim (Option-cases (entry_at r e.index)) [
    | inl none' ↦ absurd (ground (arith, h, none'))
    | inr (x, some') ↦ (x, (some', ground (arith, h, some')))
  ]

  -- the index of divergence is that of one of the entries
  diverges-above :
      (es : List (LogEntry Cmd)) (r : Raft Cmd State Reply) (at low : ℕ)
      → All (λ (x : LogEntry Cmd). low < x.index) es
      → diverges_at es r ≡ some at
      → low < at
  unfolding diverges_at
  diverges-above [] r at low all h = absurd (ground (arith, h))
  diverges-above (e ∷ es) r at low all h = elim (Bool-cases (holds_entry e (entry_at r e.index))) [
    | inl held ↦ diverges-above es r at low all.1 (ground (arith, held, h))
    | inr other ↦ ground (arith, other, h, all.0)
  ]

  none-IsStored :
      (es : List (LogEntry Cmd)) (r : Raft Cmd State Reply)
      → diverges_at es r ≡ none
      → All (IsStored r) es
  unfolding diverges_at
  none-IsStored [] r h = tt
  none-IsStored (e ∷ es) r h = elim (Bool-cases (holds_entry e (entry_at r e.index))) [
    | inl held ↦ (held-IsStored r e held, none-IsStored es r (ground (arith, held, h)))
    | inr other ↦ absurd (ground (arith, other, h))
  ]

  some-IsStored :
      (es : List (LogEntry Cmd)) (r : Raft Cmd State Reply) (at : ℕ)
      → Ascends es
      → diverges_at es r ≡ some at
      → All (λ (e : LogEntry Cmd). ((e.index < at) × IsStored r e) ⊎ (at ≤ e.index)) es
  unfolding diverges_at Ascends
  some-IsStored [] r at up h = tt
  some-IsStored (e ∷ es) r at (low, up) h = elim (Bool-cases (holds_entry e (entry_at r e.index))) [
    | inl held ↦
        let h' : diverges_at es r ≡ some at = ground (arith, held, h) in
        (
          inl (diverges-above es r at e.index low h', held-IsStored r e held),
          some-IsStored es r at up h',
        )
    | inr other ↦
        let here : e.index ≡ at = ground (arith, other, h) in
        (inr (omega (arith, here)), All-zip es (λ x lt _. inr (omega (arith, here, lt))) low low)
  ]

  IsStored-at :
      (at : ℕ) (es : List (LogEntry Cmd)) (r t : Raft Cmd State Reply) (e : LogEntry Cmd)
      → t.log
        ≡ filter (λ (y : LogEntry Cmd). ltb y.index at) r.log
          ++ filter (λ (y : LogEntry Cmd). leb at y.index) es
      → t.snapshot_index ≡ r.snapshot_index
      → r.snapshot_index < e.index
      → (at ≤ e.index
          → find (at_index e.index) (filter (λ (y : LogEntry Cmd). leb at y.index) es) ≡ some e)
      → ((e.index < at) × IsStored r e) ⊎ (at ≤ e.index)
      → IsStored t e
  unfolding IsStored
  IsStored-at at es r t e log same above new (inl (lt, (x, (f, term)))) = (
    x,
    (
      entry_at-find t e.index (omega (arith, same, above))
          ∙ ap (find (at_index e.index)) log
          ∙ find-kept at e.index r.log (filter (λ (y : LogEntry Cmd). leb at y.index) es) x lt
              (sym (entry_at-find r e.index above) ∙ f),
      term,
    ),
  )
  IsStored-at at es r t e log same above new (inr le) = (
    e,
    (
      entry_at-find t e.index (omega (arith, same, above))
          ∙ ap (find (at_index e.index)) log
          ∙ find-new at e.index r.log (filter (λ (y : LogEntry Cmd). leb at y.index) es) le
          ∙ new le,
      refl,
    ),
  )

  -- Entries whose indices go up, above the follower's snapshot, are all in its log after they are
  -- stored, each at its index and under its term, whatever the log held before.
  pub store_entries-IsStored :
      (es : List (LogEntry Cmd)) (r : Raft Cmd State Reply)
      → Ascends es
      → All (λ (e : LogEntry Cmd). r.snapshot_index < e.index) es
      → All (IsStored (store_entries es r)) es
  unfolding store_entries rewrite
  store_entries-IsStored es r up above = elim (Option-cases (diverges_at es r)) [
    | inl none' ↦
        subst (λ t. All (IsStored t) es) (sym (unchanged none')) (none-IsStored es r none')
    | inr (at, some') ↦
        let t = store_entries es r in
        All-zip
          {P = λ (e : LogEntry Cmd).
            ((e.index < at) × IsStored r e) ⊎ (at ≤ e.index) → IsStored t e}
          es (λ e f s. f s)
          (All-zip es (λ e a n s. IsStored-at at es r t e (log at some') (base at some') a n s)
            above (found-new at es up))
          (some-IsStored es r at up some')
  ]
    where
      unchanged : diverges_at es r ≡ none → store_entries es r ≡ r
      unchanged h = rw (store_entries, h) refl

      log :
          (at : ℕ)
          → diverges_at es r ≡ some at
          → (store_entries es r).log
            ≡ filter (λ (y : LogEntry Cmd). ltb y.index at) r.log
              ++ filter (λ (y : LogEntry Cmd). leb at y.index) es
      log at h = rw (store_entries, h) refl

      base :
          (at : ℕ)
          → diverges_at es r ≡ some at
          → (store_entries es r).snapshot_index ≡ r.snapshot_index
      base at h = rw (store_entries, h) refl
