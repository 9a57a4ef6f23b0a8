-- ===== src/Json/Merging.antt =====
-- `mergeDeep` of middleware/general.js: a merge patch applied to a value.
use mathlib.Core.Path.{subst}
use nodejs_k8s.Prelude.{
  Option, none, some, ◌≡◌, refl, sym, ◌∙◌, ap, arith, Text, text_eq, text_beq_iff, ◌==◌,
  if◌then◌else◌, beq_refl, Bool-cases, inl, inr,
}
use nodejs_k8s.Json.Value.{
  Json, null, boolean, number, string, array, object, Members, no_members, member,
}
use nodejs_k8s.Json.Members.{get, set, delete, get-set, get-delete, set-get, delete-absent}

-- the members that the copy of the target starts with: `[...target]` copies items alone
unfoldable pub base_of : Option Json → Members
base_of (some (object ms)) = ms
base_of _ = no_members

-- the copy with its members
unfoldable pub rebuild : Option Json → Members → Json
rebuild (some (array xs _)) ms = array xs ms
rebuild _ ms = object ms

-- `merge_deep target source` for a source that is no `null`; what is no object replaces the target
unfoldable mutual
  unfolding base_of rebuild

  pub merge_deep : Option Json → Json → Json
  merge_deep target (object ms) = rebuild target (merge_members (base_of target) ms)
  merge_deep target null = null
  merge_deep target (boolean b) = boolean b
  merge_deep target (number n) = number n
  merge_deep target (string t) = string t
  merge_deep target (array xs ms) = array xs ms

  pub merge_members : Members → Members → Members
  merge_members out no_members = out
  merge_members out (member k v ms) = merge_members (put out k v) ms

  -- one turn of the loop
  pub put : Members → Text → Json → Members
  put out k null = delete k out
  put out k (boolean b) = set k (boolean b) out
  put out k (number n) = set k (number n) out
  put out k (string t) = set k (string t) out
  put out k (array xs ms) = set k (array xs ms) out
  put out k (object ms) = set k (rebuild (get k out) (merge_members (base_of (get k out)) ms)) out

-- no key twice, at any depth that a merge looks into
unfoldable mutual
  pub IsDistinct : Json → Type 0
  IsDistinct (object ms) = AreDistinct ms
  IsDistinct _ = Unit

  pub AreDistinct : Members → Type 0
  AreDistinct no_members = Unit
  AreDistinct (member k v ms) = (get k ms ≡ none) × IsDistinct v × AreDistinct ms

-- what a member becomes whose value in the patch is given
unfoldable pub merged : Option Json → Option Json → Option Json
merged old none = old
merged old (some null) = none
merged old (some v) = some (merge_deep old v)

get-put :
    (key k : Text) (v : Json) (out : Members)
    → get key (put out k v) ≡ (if k == key then merged (get k out) (some v) else get key out)
unfolding merge_deep merged
get-put key k null out = get-delete k key out
get-put key k (boolean b) out = get-set k key (boolean b) out
get-put key k (number n) out = get-set k key (number n) out
get-put key k (string t) out = get-set k key (string t) out
get-put key k (array xs ms) out = get-set k key (array xs ms) out
get-put key k (object ms) out =
    get-set k key (rebuild (get k out) (merge_members (base_of (get k out)) ms)) out

merge_members-member :
    (out ms : Members) (k : Text) (v : Json)
    → merge_members out (member k v ms) ≡ merge_members (put out k v) ms
unfolding merge_deep
merge_members-member out ms k v = refl

-- After a merge patch that names no key twice, a member that the patch does not name is what it was,
-- one that the patch has as null is gone, and any other is the merge of its old value with the patch's.
pub get-merge_members :
    (key : Text) (out ms : Members)
    → AreDistinct ms
    → get key (merge_members out ms) ≡ merged (get key out) (get key ms)
unfolding merged get AreDistinct
get-merge_members key out no_members d = unfold merge_deep in refl
get-merge_members key out (member k v ms) (fresh, dv, ds) =
    let step = merge_members-member out ms k v in
    let ih = get-merge_members key (put out k v) ms ds in
    let turn = get-put key k v out in
    elim (Bool-cases (k == key)) [
      | inl here ↦
          let same : k ≡ key = ground (arith, here, text_beq_iff k key) in
          let gone : get key ms ≡ none = subst (λ j. get j ms ≡ none) same fresh in
          let now : get key (put out k v) ≡ merged (get key out) (some v) =
            subst (λ j. get key (put out k v) ≡ merged (get j out) (some v)) same
              (ground (arith, turn, here)) in
          ground (arith, step, ih, gone, now, here)
      | inr other ↦ ground (arith, step, ih, turn, other)
    ]

-- every member is one that the patch leaves as it is
unfoldable pub Absorbs : Members → Members → Type 0
Absorbs out no_members = Unit
Absorbs out (member k v ms) = (merged (get k out) (some v) ≡ get k out) × Absorbs out ms

put-absorbed :
    (out : Members) (k : Text) (v : Json)
    → merged (get k out) (some v) ≡ get k out
    → put out k v ≡ out
unfolding merge_deep merged
put-absorbed out k null h = delete-absent k out (sym h)
put-absorbed out k (boolean b) h = set-get k (boolean b) out (sym h)
put-absorbed out k (number n) h = set-get k (number n) out (sym h)
put-absorbed out k (string t) h = set-get k (string t) out (sym h)
put-absorbed out k (array xs ms) h = set-get k (array xs ms) out (sym h)
put-absorbed out k (object ms) h =
    set-get k (rebuild (get k out) (merge_members (base_of (get k out)) ms)) out (sym h)

Absorbs-merge_members : (out ms : Members) → Absorbs out ms → merge_members out ms ≡ out
unfolding Absorbs
Absorbs-merge_members out no_members h = unfold merge_deep in refl
Absorbs-merge_members out (member k v ms) (here, there) =
    let turn = put-absorbed out k v here in
    merge_members-member out ms k v
    ∙ ap (λ o. merge_members o ms) turn
    ∙ Absorbs-merge_members out ms there

-- what a merge of an object into `old` makes
abbrev into : Option Json → Members → Json
into old ms = rebuild old (merge_members (base_of old) ms)

into-twice :
    (old : Option Json) (ms : Members)
    → merge_members (merge_members (base_of old) ms) ms ≡ merge_members (base_of old) ms
    → into (some (into old ms)) ms ≡ into old ms
unfolding base_of rebuild
into-twice none ms h = ap object h
into-twice (some null) ms h = ap object h
into-twice (some (boolean b)) ms h = ap object h
into-twice (some (number n)) ms h = ap object h
into-twice (some (string t)) ms h = ap object h
into-twice (some (array xs ns)) ms h = refl
into-twice (some (object ns)) ms h = ap object h

-- a member of the rest is one of the whole
get-rest :
    (k key : Text) (w v : Json) (ms : Members)
    → get k ms ≡ none
    → get key ms ≡ some v
    → get key (member k w ms) ≡ some v
unfolding get
get-rest k key w v ms fresh h = elim (Bool-cases (k == key)) [
  | inl here ↦
      let same : k ≡ key = ground (arith, here, text_beq_iff k key) in
      let gone : get key ms ≡ none = subst (λ j. get j ms ≡ none) same fresh in
      absurd (ground (arith, h, gone))
  | inr other ↦ ground (arith, other, h)
]

get-first : (k : Text) (v : Json) (ms : Members) → get k (member k v ms) ≡ some v
unfolding get
get-first k v ms = ground (arith, beq_refl k)

get-named :
    (key : Text) (v : Json) (out ms : Members)
    → AreDistinct ms
    → get key ms ≡ some v
    → get key (merge_members out ms) ≡ merged (get key out) (some v)
get-named key v out ms d h = get-merge_members key out ms d ∙ ap (merged (get key out)) h

mutual
  unfolding merged merge_deep IsDistinct Absorbs get

  merged-twice :
      (old : Option Json) (v : Json)
      → IsDistinct v
      → merged (merged old (some v)) (some v) ≡ merged old (some v)
  merged-twice old null d = refl
  merged-twice old (boolean b) d = refl
  merged-twice old (number n) d = refl
  merged-twice old (string t) d = refl
  merged-twice old (array xs ms) d = refl
  merged-twice old (object ms) d = ap some (
      into-twice old ms (
        Absorbs-merge_members (merge_members (base_of old) ms) ms (
          absorbs (base_of old) (merge_members (base_of old) ms) ms d
            (λ key v h. get-named key v (base_of old) ms d h))))

  absorbs :
      (out result ms : Members)
      → AreDistinct ms
      → ((key : Text) (v : Json)
          → get key ms ≡ some v
          → get key result ≡ merged (get key out) (some v))
      → Absorbs result ms
  absorbs out result no_members d h = tt
  absorbs out result (member k v ms) (fresh, dv, ds) h =
      let now = h k v (get-first k v ms) in
      (
        ap (λ o. merged o (some v)) now ∙ merged-twice (get k out) v dv ∙ sym now,
        absorbs out result ms ds (λ key w e. h key w (get-rest k key v w ms fresh e)),
      )

-- Merging a patch that names no key twice, into an object that it has been merged into, changes nothing.
pub merge_members_twice :
    (out ms : Members)
    → AreDistinct ms
    → merge_members (merge_members out ms) ms ≡ merge_members out ms
merge_members_twice out ms d =
    Absorbs-merge_members (merge_members out ms) ms
      (absorbs out (merge_members out ms) ms d (λ key v h. get-named key v out ms d h))
