-- ===== src/Json/Pointers.antt =====
-- JSON pointers as RFC 6901 writes them, and what a JSON patch of middleware/general.js puts at one.
use nodejs_k8s.Prelude.{
  ℕ, true, false, Option, none, some, List, [], ◌∷◌, ◌++◌, map, ◌≡◌, refl, ap, ◌∙◌, arith, Text,
  nat_beq, text_eq, text_beq, beq_refl, drop, if◌then◌else◌, Bool-cases, inl, inr, append-nil,
}
use nodejs_k8s.Json.Value.{Json, object, Members}
use nodejs_k8s.Json.Members.{get, set, get-set}
use nodejs_k8s.Json.Patches.{
  slash, tilde, push, split, replaced, unescape, tokens_of, add, child, set_child, edit_leaf,
  edit_at, apply_patch,
}

-- one code unit of a token
abbrev escaped_unit : ℕ → Text
escaped_unit x =
    if nat_beq x tilde
    then tilde ∷ b'0' ∷ []
    else if nat_beq x slash
    then tilde ∷ b'1' ∷ []
    else x ∷ []

unfoldable pub escape : Text → Text
escape [] = []
escape (x ∷ xs) = escaped_unit x ++ escape xs

unfoldable pub pointer : List Text → Text
unfolding escape
pointer [] = []
pointer (t ∷ ts) = slash ∷ escape t ++ pointer ts

-- what the first pass leaves
half : Text → Text
half [] = []
half (x ∷ xs) = let rest = half xs in if nat_beq x tilde then tilde ∷ b'0' ∷ rest else x ∷ rest

module _ (mark by : ℕ) where
  replaced-plain :
      (x : ℕ) (rest : Text)
      → nat_beq x tilde ≡ false
      → replaced mark by (x ∷ rest) ≡ x ∷ replaced mark by rest
  unfolding replaced
  replaced-plain x [] h = refl
  replaced-plain x (y ∷ rest) h = rw h refl

  replaced-mark :
      (rest : Text) → replaced mark by (tilde ∷ mark ∷ rest) ≡ by ∷ replaced mark by rest
  unfolding replaced
  replaced-mark rest =
      let same : nat_beq mark mark ≡ true = ground arith in rw (replaced, same) refl

  replaced-tilde :
      (y : ℕ) (rest : Text)
      → nat_beq y mark ≡ false
      → replaced mark by (tilde ∷ y ∷ rest) ≡ tilde ∷ replaced mark by (y ∷ rest)
  unfolding replaced
  replaced-tilde y rest h = rw (replaced, h) refl

replaced-escape : (t : Text) → replaced b'1' slash (escape t) ≡ half t
unfolding escape half
replaced-escape [] = unfold replaced in refl
replaced-escape (x ∷ xs) = elim (Bool-cases (nat_beq x tilde)) [
  | inl is_tilde ↦
      rw (escape, half, is_tilde)
        (replaced-tilde b'1' slash b'0' (escape xs) refl
          ∙ ap (λ t. tilde ∷ t)
              (replaced-plain b'1' slash b'0' (escape xs) refl
                ∙ ap (λ t. b'0' ∷ t) (replaced-escape xs)))
  | inr no_tilde ↦ elim (Bool-cases (nat_beq x slash)) [
    | inl is_slash ↦
        let same : slash ≡ x = ground (arith, is_slash) in
        rw (escape, half, no_tilde, is_slash)
          (replaced-mark b'1' slash (escape xs)
            ∙ ap (λ t. slash ∷ t) (replaced-escape xs)
            ∙ ap (λ y. y ∷ half xs) same)
    | inr plain ↦
        rw (escape, half, no_tilde, plain)
          (replaced-plain b'1' slash x (escape xs) no_tilde ∙ ap (λ t. x ∷ t) (replaced-escape xs))
  ]
]

replaced-half : (t : Text) → replaced b'0' tilde (half t) ≡ t
unfolding half
replaced-half [] = unfold replaced in refl
replaced-half (x ∷ xs) = elim (Bool-cases (nat_beq x tilde)) [
  | inl is_tilde ↦
      let same : tilde ≡ x = ground (arith, is_tilde) in
      rw (half, is_tilde)
        (replaced-mark b'0' tilde (half xs)
          ∙ ap (λ t. tilde ∷ t) (replaced-half xs)
          ∙ ap (λ y. y ∷ xs) same)
  | inr no_tilde ↦
      rw (half, no_tilde)
        (replaced-plain b'0' tilde x (half xs) no_tilde ∙ ap (λ t. x ∷ t) (replaced-half xs))
]

split-plain :
    (x : ℕ) (rest : Text) → nat_beq x slash ≡ false → split (x ∷ rest) ≡ push x (split rest)
unfolding split
split-plain x rest h = rw (split, h) refl

-- An escaped token has no slash.
split-escape :
    (t rest part : Text) (parts : List Text)
    → split rest ≡ part ∷ parts
    → split (escape t ++ rest) ≡ (escape t ++ part) ∷ parts
unfolding escape
split-escape [] rest part parts h = h
split-escape (x ∷ xs) rest part parts h =
    let later = split-escape xs rest part parts h in
    elim (Bool-cases (nat_beq x tilde)) [
      | inl is_tilde ↦
          rw (escape, is_tilde)
            (split-plain tilde (b'0' ∷ escape xs ++ rest) refl
              ∙ ap (push tilde) (split-plain b'0' (escape xs ++ rest) refl ∙ ap (push b'0') later))
      | inr no_tilde ↦ elim (Bool-cases (nat_beq x slash)) [
        | inl is_slash ↦
            rw (escape, no_tilde, is_slash)
              (split-plain tilde (b'1' ∷ escape xs ++ rest) refl
                ∙ ap (push tilde)
                    (split-plain b'1' (escape xs ++ rest) refl ∙ ap (push b'1') later))
        | inr plain ↦
            rw (escape, no_tilde, plain)
              (split-plain x (escape xs ++ rest) plain ∙ ap (push x) later)
      ]
    ]

split-pointer : (ts : List Text) → split (pointer ts) ≡ [] ∷ map escape ts
unfolding split pointer
split-pointer [] = refl
split-pointer (t ∷ ts) =
    ap (λ parts. [] ∷ parts)
      (split-escape t (pointer ts) [] (map escape ts) (split-pointer ts)
        ∙ ap (λ part. part ∷ map escape ts) (append-nil (escape t)))

map-unescape : (ts : List Text) → map unescape (map escape ts) ≡ ts
unfolding unescape
map-unescape [] = refl
map-unescape (t ∷ ts) =
    let back = ap (replaced b'0' tilde) (replaced-escape t) ∙ replaced-half t in
    rw (back, map-unescape ts) refl

-- The tokens of a pointer are read back from it, whatever slashes and tildes they have.
tokens_of-pointer : (ts : List Text) → tokens_of (pointer ts) ≡ ts
unfolding tokens_of
tokens_of-pointer ts =
    ap (λ parts. map unescape (drop 1 parts)) (split-pointer ts) ∙ map-unescape ts

-- An object, in which the tokens but the last lead from object to object.
abbrev pub LeadsDown : List Text → Json → Type 0
LeadsDown [] doc = ⊥
LeadsDown (leaf ∷ []) doc = (ms : Members) × (doc ≡ object ms)
LeadsDown (t ∷ u ∷ ts) doc =
    (ms : Members) × (next : Json) × (doc ≡ object ms)
    × (get t ms ≡ some next)
    × LeadsDown (u ∷ ts) next

module _ (index : Text → Option ℕ) (start : Text → ℕ → ℕ) where
  -- what stands at the end of the tokens
  unfoldable pub look : List Text → Json → Option Json
  look [] doc = some doc
  look (t ∷ ts) doc = elim (child index start t doc) [ none ↦ none | some next ↦ look ts next ]

  get-set_same : (t : Text) (v : Json) (ms : Members) → get t (set t v ms) ≡ some v
  get-set_same t v ms =
      let same : text_beq t t ≡ true = beq_refl t in get-set t t v ms ∙ rw same refl

  look-edit_at :
      (v : Json) (t : Text) (ts : List Text) (doc : Json)
      → LeadsDown (t ∷ ts) doc
      → (new : Json) × (edit_at index start (add v) (t ∷ ts) doc ≡ some new)
        × (look (t ∷ ts) new ≡ some v)
  unfolding edit_at edit_leaf set_child child look
  look-edit_at v t [] doc (ms, is_object) =
      (object (set t v ms), rw is_object refl, rw (look, get-set_same t v ms) refl)
  look-edit_at v t (u ∷ ts) doc (ms, next, is_object, at, down) =
      let (new, edited, found) = look-edit_at v u ts next down in
      (
        object (set t new ms),
        rw (edit_at, is_object, at, edited)
            (ap (λ d. some (set_child index start t new d)) is_object),
        rw (look, get-set_same t new ms) found,
      )

-- A JSON patch that adds a value at the pointer of some tokens, which lead from object to object up to the
-- last, does not throw, and the tokens lead to the value afterwards, whatever slashes and tildes they
-- have, and whether or not there was a value before.
pub apply_patch-add :
    (index : Text → Option ℕ) (start : Text → ℕ → ℕ) (v : Json) (t : Text) (ts : List Text)
    (doc : Json)
    → LeadsDown (t ∷ ts) doc
    → (new : Json) × (apply_patch index start
          (record { edit = add v; path = pointer (t ∷ ts) } ∷ [])
          doc
        ≡ some new)
      × (look index start (t ∷ ts) new ≡ some v)
unfolding apply_patch
apply_patch-add index start v t ts doc down =
    let (new, edited, found) = look-edit_at index start v t ts doc down in
    (new, rw (apply_patch, tokens_of-pointer (t ∷ ts), edited) refl, found)
