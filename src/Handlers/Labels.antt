-- ===== src/Handlers/Labels.antt =====
-- A watch with a label selector gets the objects that Kubernetes means by it.
use nodejs_k8s.Prelude.{
  Bool, true, false, not, ◌&&◌, Option, none, some, List, [], ◌∷◌, ◌≡◌, ◌≢◌, refl, sym, ap, ◌∙◌,
  arith, Text, text_eq, text_beq_iff, ◌==◌, any, every, if◌then◌else◌, All, Bool-cases, inl, inr,
}
use nodejs_k8s.Prelude.Map
use nodejs_k8s.Json.Value.{Json, string}
use nodejs_k8s.Handlers.Selectors.{
  Operation, equal_to, not_equal_to, within, outside, present, absent, Clause, expr_of, exprs_of,
  is_text, with_given, namespace_path, value_at, split_dots, with_fields, with_labels, find_params,
  label_of, undefined_text, is_missing, text_in, evaluate_expr, meets_condition, matches_query,
}

-- what a clause says of a label's value, if the label is there
unfoldable pub holds : Option Text → Operation → Bool
holds none (equal_to v) = false
holds none (not_equal_to v) = true
holds none (within vs) = false
holds none (outside vs) = true
holds none present = false
holds none absent = true
holds (some t) (equal_to v) = t == v
holds (some t) (not_equal_to v) = not (t == v)
holds (some t) (within vs) = any (λ v. v == t) vs
holds (some t) (outside vs) = not (any (λ v. v == t) vs)
holds (some t) present = true
holds (some t) absent = false

-- no value that the clause names is the text that a missing label is printed as
unfoldable pub IsPlain : Operation → Type 0
IsPlain (equal_to v) = v ≢ undefined_text
IsPlain (not_equal_to v) = v ≢ undefined_text
IsPlain (within vs) = All (λ v. v ≢ undefined_text) vs
IsPlain (outside vs) = All (λ v. v ≢ undefined_text) vs
IsPlain present = Unit
IsPlain absent = Unit

unfoldable pub as_json : Option Text → Option Json
as_json none = none
as_json (some t) = some (string t)

none-any :
    (vs : List Text) → All (λ v. v ≢ undefined_text) vs → any (λ v. v == undefined_text) vs ≡ false
unfolding any
none-any [] h = refl
none-any (v ∷ vs) (here, there) =
    ground (arith, text_beq_iff v undefined_text, here, none-any vs there)

undefined-differs : (v : Text) → v ≢ undefined_text → (undefined_text == v) ≡ false
undefined-differs v h =
    let back : undefined_text ≢ v = λ e. h (sym e) in
    ground (arith, text_beq_iff undefined_text v, back)

module _ (print : Json → Text) (obj : Json) where
  evaluate-holds :
      (key : Text) (o : Operation) (l : Option Text)
      → label_of obj key ≡ as_json l
      → IsPlain o
      → evaluate_expr print obj (expr_of (record { key = key; operation = o })) ≡ holds l o
  unfolding expr_of evaluate_expr holds IsPlain as_json is_missing text_in
  evaluate-holds key (equal_to v) none h p = rw h (undefined-differs v p)
  evaluate-holds key (not_equal_to v) none h p = rw h (ap not (undefined-differs v p))
  evaluate-holds key (within vs) none h p = rw h (none-any vs p)
  evaluate-holds key (outside vs) none h p = rw h (ap not (none-any vs p))
  evaluate-holds key present none h p = rw h refl
  evaluate-holds key absent none h p = rw h refl
  evaluate-holds key (equal_to v) (some t) h p = rw h refl
  evaluate-holds key (not_equal_to v) (some t) h p = rw h refl
  evaluate-holds key (within vs) (some t) h p = rw h refl
  evaluate-holds key (outside vs) (some t) h p = rw h refl
  evaluate-holds key present (some t) h p = rw h refl
  evaluate-holds key absent (some t) h p = rw h refl

  module _ (labels : Text → Option Text)
      (labelled : (key : Text) → label_of obj key ≡ as_json (labels key)) where
    unfoldable pub clause_holds : Clause → Bool
    clause_holds c = holds (labels c.key) c.operation

    every-holds :
        (cs : List Clause)
        → All (λ c. IsPlain c.operation) cs
        → every (evaluate_expr print obj) (exprs_of cs) ≡ every clause_holds cs
    unfolding exprs_of every clause_holds
    every-holds [] p = refl
    every-holds (c ∷ cs) (here, there) =
        let first = evaluate-holds c.key c.operation (labels c.key) (labelled c.key) here in
        let rest = every-holds cs there in rw (first, rest) refl

    unfoldable pub in_namespace : Text → Bool
    in_namespace namespace =
        if namespace == []
        then true
        else text_in print (value_at (split_dots namespace_path) (some obj)) == namespace

    matches-empty :
        (cs : List Clause)
        → matches_query print obj (with_labels cs [])
          ≡ every (evaluate_expr print obj) (exprs_of cs)
    unfolding matches_query with_labels meets_condition every exprs_of Map.set
    matches-empty [] = refl
    matches-empty (c ∷ cs) = ground (arith)

    matches-namespaced :
        (namespace : Text) (cs : List Clause)
        → matches_query print obj (with_labels cs ((namespace_path, is_text namespace) ∷ [])) ≡ (
            text_in print (value_at (split_dots namespace_path) (some obj)) == namespace
            && every (evaluate_expr print obj) (exprs_of cs))
    unfolding matches_query with_labels meets_condition every exprs_of Map.set
    matches-namespaced namespace [] = refl
    matches-namespaced namespace (c ∷ cs) = ground (arith)

    -- A watch of a namespace, or of all, with a label selector no value of which is the text 'undefined',
    -- lets an object whose labels are texts through exactly if it is in the namespace and each clause
    -- holds of the value of its label, as Kubernetes reads it: a missing label is equal to nothing and
    -- in no list.
    pub matches_query-labels :
        (namespace : Text) (cs : List Clause)
        → All (λ c. IsPlain c.operation) cs
        → matches_query print obj (
            find_params
              (record { name = []; namespace = namespace; node = []; fields = []; labels = cs }))
          ≡ (in_namespace namespace && every clause_holds cs)
    unfolding matches_query find_params meets_condition every with_given with_fields with_labels
        in_namespace Map.set exprs_of
    matches_query-labels namespace cs p =
        let same = every-holds cs p in
        elim (Bool-cases (namespace == [])) [
          | inl all ↦ rw all (matches-empty cs ∙ same)
          | inr one ↦ rw one (
              matches-namespaced namespace cs
              ∙ ap
                  (λ b.
                    text_in print (value_at (split_dots namespace_path) (some obj)) == namespace
                    && b)
                  same)
        ]
