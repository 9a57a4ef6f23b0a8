-- ===== src/Objects/Finalizers.antt =====
-- A resource of objects/object.js that has a finalizer stays until the finalizer is taken away.
use nodejs_k8s.Prelude.{ℕ, ◌+◌, none, some, List, [], ◌∷◌, ◌++◌, ◌≡◌, Text, text_eq}
use nodejs_k8s.Objects.Requests.{delete_one}
use nodejs_k8s.Objects.Types.{Resource, Query, Collection, updated, World}
use nodejs_k8s.Objects.Writes.{query_or_own, stamp}

module _ {C : Type 0} (model : Collection C) (print : ℕ → Text) where
  -- the resource once it is marked, and the world after that
  unfoldable pub mark : Text → Resource → World C → Resource
  mark now r w = stamp model print now (print (w.counter + 1)) r

  unfoldable pub after_mark : Text → Resource → World C → World C
  unfolding mark
  after_mark now r w = record {
    items =
        (model.find_one_and_update (query_or_own r none)
          (stamp model print now (print (w.counter + 1))) w.items).1;
    counter = w.counter + 1;
    events = w.events ++ updated (mark now r w) ∷ [];
  }

  -- a resource with these finalizers is found under its own name and namespace
  pub record IsHeld (q : Query) (finalizers : List Text) (w : World C) : Type 0 where
    pub resource : Resource
    pub found : model.find_one q w.items ≡ some resource
    pub own : query_or_own resource none ≡ q
    pub holds : resource.meta.finalizers ≡ finalizers

  -- the world after deletions at these times, none of them a dry run
  unfoldable pub deletions : Query → List Text → World C → World C
  deletions q [] w = w
  deletions q (now ∷ times) w = deletions q times (delete_one model print q none none now w).1
