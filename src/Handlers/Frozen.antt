-- ===== src/Handlers/Frozen.antt =====
-- What `rejectsImmutableChange` of middleware/general.js lets through, in terms of what it compares.
use mathlib.Core.Path.{subst}
use nodejs_k8s.Prelude.{
  sym, Bool, true, false, not, none, List, [], ◌∷◌, ◌++◌, ◌≡◌, ◌⊎◌, refl, arith, Text, text_eq,
  text_beq_iff, ◌==◌, filter, Among, Bool-cases, inl, inr,
}
use nodejs_k8s.Json.Value.{Members, no_members, member}
use nodejs_k8s.Json.Members.{get}
use nodejs_k8s.Json.Same.{same_value}
use nodejs_k8s.Handlers.Checks.{
  Write, keys, is_exempt, is_immutable, frozen, touched, first_of, left_behind, rejects_immutable,
}

get-keys : (key : Text) (ms : Members) → (get key ms ≡ none) ⊎ Among key (keys ms)
unfolding get keys
get-keys key no_members = inl refl
get-keys key (member k v ms) = elim (Bool-cases (k == key)) [
  | inl here ↦ inr (inl (ground (arith, here, text_beq_iff k key)))
  | inr other ↦ elim (get-keys key ms) [
    | inl absent ↦ inl (ground (arith, other, absent))
    | inr there ↦ inr (inr there)
  ]
]

Among-append_left : (x : Text) (xs ys : List Text) → Among x xs → Among x (xs ++ ys)
Among-append_left x [] ys h = absurd h
Among-append_left x (z ∷ xs) ys (inl e) = inl e
Among-append_left x (z ∷ xs) ys (inr h) = inr (Among-append_left x xs ys h)

Among-append_right : (x : Text) (xs ys : List Text) → Among x ys → Among x (xs ++ ys)
Among-append_right x [] ys h = h
Among-append_right x (z ∷ xs) ys h = inr (Among-append_right x xs ys h)

Among-filter :
    (p : Text → Bool) (x : Text) (xs : List Text) → p x ≡ true → Among x xs → Among x (filter p xs)
unfolding filter
Among-filter p x [] h there = absurd there
Among-filter p x (z ∷ xs) h (inl e) =
    let here : p z ≡ true = subst (λ y. p y ≡ true) (sym e) h in rw here (inl e)
Among-filter p x (z ∷ xs) h (inr there) = elim (Bool-cases (p z)) [
  | inl yes' ↦ rw yes' (inr (Among-filter p x xs h there))
  | inr no' ↦ rw no' (Among-filter p x xs h there)
]

no-first : (xs : List Text) → first_of xs ≡ none → xs ≡ []
unfolding first_of
no-first [] h = refl
no-first (x ∷ xs) h = absurd (ground (arith, h))

module _ (stored : Members) (w : Write) where
  untouched :
      rejects_immutable stored w ≡ none
      → is_immutable stored ≡ true
      → touched stored (left_behind stored w) ≡ []
  unfolding rejects_immutable
  untouched h frozen' =
      no-first (touched stored (left_behind stored w)) (ground (arith, h, frozen'))

  named-kept :
      (key : Text)
      → touched stored (left_behind stored w) ≡ []
      → is_exempt key ≡ false
      → Among key (keys stored ++ keys (left_behind stored w))
      → same_value (get key stored) (get key (left_behind stored w)) ≡ true
  unfolding touched frozen
  named-kept key none' counted there =
      let named =
        Among-filter (λ k. not (is_exempt k)) key (keys stored ++ keys (left_behind stored w))
          (ground (arith, counted)) there in
      elim (Bool-cases (same_value (get key stored) (get key (left_behind stored w)))) [
        | inl kept ↦ kept
        | inr changed ↦
            let found =
              Among-filter (λ k. not (same_value (get k stored) (get k (left_behind stored w)))) key
                (frozen stored (left_behind stored w)) (ground (arith, changed)) named in
            absurd (subst (Among key) none' found)
      ]

  -- If a write to an immutable object is not refused, each member of what the check compares it with, but
  -- for the metadata, the API version and the kind, has a value that is the same but for the order of
  -- its members.
  pub rejects_immutable-none :
      (key : Text)
      → rejects_immutable stored w ≡ none
      → is_immutable stored ≡ true
      → is_exempt key ≡ false
      → same_value (get key stored) (get key (left_behind stored w)) ≡ true
  unfolding same_value
  rejects_immutable-none key h frozen' counted =
      let none' = untouched h frozen' in
      let left = left_behind stored w in
      let there = named-kept key none' counted in
      elim (get-keys key stored) [
        | inr held ↦ there (Among-append_left key (keys stored) (keys left) held)
        | inl absent ↦ elim (get-keys key left) [
          | inr held ↦ there (Among-append_right key (keys stored) (keys left) held)
          | inl absent' ↦ rw (absent, absent') refl
        ]
      ]
