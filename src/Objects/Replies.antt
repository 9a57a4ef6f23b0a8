-- ===== src/Objects/Replies.antt =====
-- What a PUT leaves of a resource of objects/object.js, and two that name one version.
use mathlib.Core.Path.{subst}
use nodejs_k8s.Prelude.{
  Bool-cases, inl, inr, ℕ, ◌+◌, Bool, true, false, not, ◌&&◌, Option, none, some, List, [], ◌∷◌,
  ◌++◌, ◌≡◌, ◌≢◌, ◌∙◌, refl, sym, ap, arith, Text, text_eq, if◌then◌else◌, ◌==◌, text_beq_iff,
  Option-cases,
}
use nodejs_k8s.Json.Value.{Members}
use nodejs_k8s.Handlers.Checks.{is_dry_run, conflicts, rejects_immutable, replace, shown}
use nodejs_k8s.Objects.Requests.{PutRequest, conflict, answered, put_one, put_found, written_reply}
use nodejs_k8s.Objects.Types.{
  Resource, Query, Collection, IsCollection, updated, deleted, World, matches,
}
use nodejs_k8s.Objects.Writes.{
  has_finalizers, is_deleting, query_or_own, MetaChange, given_or, next_version, emit,
  finalize_if_released, announce, update,
}

module _ {C : Type 0} (model : Collection C) (print : ℕ → Text) where
  -- the resource that a PUT is to write: of the metadata, what the caller gives, and else what there was
  unfoldable pub successor : Resource → MetaChange → Members → World C → Resource
  successor r change body w = record {
    meta = record {
      name = r.meta.name;
      namespace = r.meta.namespace;
      uid = r.meta.uid;
      creation = r.meta.creation;
      deletion = elim change.deletion [ none ↦ r.meta.deletion | some stamp ↦ stamp ];
      finalizers = elim change.finalizers [ none ↦ r.meta.finalizers | some names ↦ names ];
      labels = elim change.labels [ none ↦ r.meta.labels | some labels ↦ labels ];
      version = print (w.counter + 1);
    };
    body = body;
  }

  -- stamped for deletion, and nothing holds it
  unfoldable pub is_released : Resource → Bool
  is_released r = elim r.meta.deletion [
    | none ↦ false
    | some [] ↦ false
    | some (c ∷ cs) ↦ elim r.meta.finalizers [ [] ↦ true | f ∷ fs ↦ false ]
  ]

  released : (r : Resource) → is_released r ≡ (is_deleting r.meta && not (has_finalizers r.meta))
  unfolding is_released is_deleting has_finalizers
  released r = go r.meta.deletion r.meta.finalizers
    where
      go :
          (d : Option Text) (fs : List Text)
          → (elim d [
            | none ↦ false
            | some [] ↦ false
            | some (c ∷ cs) ↦ elim fs [ [] ↦ true | f ∷ rest ↦ false ]
          ])
            ≡ ((elim d [ none ↦ false | some t ↦ not (t == []) ])
                && not (elim fs [ [] ↦ false | f ∷ rest ↦ true ]))
      go none fs = refl
      go (some []) fs = refl
      go (some (c ∷ cs)) [] = refl
      go (some (c ∷ cs)) (f ∷ fs) = refl

  replaced : Query → Resource → World C → C
  replaced q new w = (model.find_one_and_replace q new w.items).1

  -- the world after a PUT wrote `new`
  unfoldable pub after_put : Query → Resource → World C → World C
  unfolding replaced
  after_put q new w =
      if is_released new
      then record {
        items = (model.find_one_and_delete q (replaced q new w)).1;
        counter = w.counter + 1;
        events = (w.events ++ updated new ∷ []) ++ deleted new ∷ [];
      }
      else record {
        items = replaced q new w;
        counter = w.counter + 1;
        events = w.events ++ updated new ∷ [];
      }

  unwritten :
      (out : Option Resource × World C) (r' : Resource) (w' : World C)
      → written_reply out ≡ (answered r', w')
      → out ≡ (some r', w')
  unfolding written_reply
  unwritten (none, w) r' w' h = absurd (ground (arith, h))
  unwritten (some r, w) r' w' h = ground (arith, h)

  -- only a write answers with the resource
  pub put-written :
      (req : PutRequest) (r r' : Resource) (change : MetaChange) (body : Members) (w w' : World C)
      → put_found model print req r change body w ≡ (answered r', w')
      → update model print r change body (some req.query) w ≡ (some r', w')
  unfolding put_found
  put-written req r r' change body w w' h =
      elim (Bool-cases (conflicts req.sent_version (some r.meta.version))) [
        | inl yes' ↦ absurd (ground (arith, h, yes'))
        | inr no' ↦ elim (Option-cases (rejects_immutable r.body (replace body))) [
          | inr (field, some') ↦ absurd (ground (arith, h, no', some'))
          | inl none' ↦ elim (Bool-cases (is_dry_run req.query_dry_run req.body_dry_run)) [
            | inl dry ↦ absurd (ground (arith, h, no', none', dry))
            | inr real ↦
                unwritten (update model print r change body (some req.query) w) r' w'
                  (rw (put_found, no', none', real) at h)
          ]
        ]
      ]

  stale-conflicts :
      (sent current : Text)
      → sent ≢ []
      → sent ≢ current
      → conflicts (some sent) (some current) ≡ true
  unfolding conflicts shown
  stale-conflicts sent current given differ =
      ground (arith, text_beq_iff sent [], text_beq_iff sent current, given, differ)

  conflict-put_one :
      (req : PutRequest) (r : Resource) (content : MetaChange × Members) (w : World C)
      → model.find_one req.query w.items ≡ some r
      → req.content ≡ some content
      → conflicts req.sent_version (some r.meta.version) ≡ true
      → put_one model print req w ≡ (conflict, w)
  unfolding put_one put_found
  conflict-put_one req r content w there full stale =
      rw (put_one, there, full, put_found, stale) refl

  successor-version :
      (r : Resource) (change : MetaChange) (body : Members) (w : World C)
      → (successor r change body w).meta.version ≡ print (w.counter + 1)
  unfolding successor
  successor-version r change body w = refl

  module _ (laws : IsCollection model) where
    successor-matches :
        (q : Query) (r : Resource) (change : MetaChange) (body : Members) (w : World C)
        → model.find_one q w.items ≡ some r
        → matches q (successor r change body w) ≡ true
    unfolding successor matches
    successor-matches q r change body w there = laws.found-matches q w.items r there

    pub update-after_put :
        (q : Query) (r : Resource) (change : MetaChange) (body : Members) (w : World C)
        → model.find_one q w.items ≡ some r
        → update model print r change body (some q) w
          ≡ (some (successor r change body w), after_put q (successor r change body w) w)
    unfolding update announce query_or_own next_version emit finalize_if_released given_or successor
        after_put replaced
    update-after_put q r change body w there =
        let new = successor r change body w in
        let (got, again) =
          laws.replace-found q new w.items r there (successor-matches q r change body w there) in
        let gone = laws.delete-found q (replaced q new w) new again in
        elim (Bool-cases (is_deleting new.meta)) [
          | inr staying ↦
              let stays : is_released new ≡ false = released new ∙ rw staying refl in
              rw (got, staying, stays) refl
          | inl leaving ↦ elim (Bool-cases (has_finalizers new.meta)) [
            | inl held ↦
                let stays : is_released new ≡ false = released new ∙ rw (leaving, held) refl in
                rw (got, leaving, held, stays) refl
            | inr free ↦
                let goes : is_released new ≡ true = released new ∙ rw (leaving, free) refl in
                rw (got, leaving, free, gone, goes) refl
          ]
        ]

    pub found-after_put :
        (q : Query) (r : Resource) (change : MetaChange) (body : Members) (w : World C)
        → model.find_one q w.items ≡ some r
        → is_released (successor r change body w) ≡ false
        → model.find_one q (after_put q (successor r change body w) w).items
          ≡ some (successor r change body w)
    unfolding after_put replaced
    found-after_put q r change body w there stays =
        let new = successor r change body w in
        let (got, again) =
          laws.replace-found q new w.items r there (successor-matches q r change body w there) in
        rw stays again

    first-put :
        (req : PutRequest) (r r' : Resource) (change : MetaChange) (body : Members) (w w' : World C)
        → model.find_one req.query w.items ≡ some r
        → req.content ≡ some (change, body)
        → put_one model print req w ≡ (answered r', w')
        → w' ≡ after_put req.query (successor r change body w) w
    unfolding put_one
    first-put req r r' change body w w' there full h =
        let wrote = put-written req r r' change body w w' (rw (put_one, there, full) at h) in
        sym (
          ap (λ (out : Option Resource × World C). out.1)
            (sym (update-after_put req.query r change body w there) ∙ wrote))

    -- Two PUTs of one resource that name the version it has, the first of which is answered with the
    -- resource and does not complete its deletion: the second is answered with a conflict and changes
    -- nothing, if the version that the first got is another and the collection is as IsCollection says.
    pub put_one-stale :
        (req late : PutRequest) (r r' : Resource) (change : MetaChange) (body : Members)
        (content : MetaChange × Members) (w w' : World C)
        → model.find_one req.query w.items ≡ some r
        → req.content ≡ some (change, body)
        → put_one model print req w ≡ (answered r', w')
        → is_released (successor r change body w) ≡ false
        → r.meta.version ≢ []
        → r.meta.version ≢ print (w.counter + 1)
        → late.query ≡ req.query
        → late.sent_version ≡ some r.meta.version
        → late.content ≡ some content
        → put_one model print late w' ≡ (conflict, w')
    put_one-stale req late r r' change body content w w' there full h stays given differ same sent
          full' =
        let new = successor r change body w in
        let world = first-put req r r' change body w w' there full h in
        let found : model.find_one late.query w'.items ≡ some new =
          subst (λ q. model.find_one q w'.items ≡ some new) (sym same)
            (subst (λ v. model.find_one req.query v.items ≡ some new) (sym world)
              (found-after_put req.query r change body w there stays)) in
        let stale : conflicts late.sent_version (some new.meta.version) ≡ true =
          subst (λ s. conflicts s (some new.meta.version) ≡ true) (sym sent)
            (subst (λ v. conflicts (some r.meta.version) (some v) ≡ true)
              (sym (successor-version r change body w))
              (stale-conflicts r.meta.version (print (w.counter + 1)) given differ)) in
        conflict-put_one late new content w' found full' stale
