-- ===== src/Objects/Types.antt =====
-- A stored resource of objects/object.js, and the collection that holds the resources of one kind. The
-- collection is MongoDB's, through mongoose: its operations are an interface, with their documented
-- behaviour in IsCollection.
use nodejs_k8s.Prelude.{ℕ, Bool, true, ◌&&◌, Option, none, some, List, ◌≡◌, Text, text_eq, ◌==◌}
use nodejs_k8s.Prelude.Map.{Map}
use nodejs_k8s.Json.Value.{Members}

pub record Meta : Type 0 where
  pub name : Text
  pub namespace : Text
  pub uid : Text
  pub creation : Text
  pub deletion : Option Text
  pub finalizers : List Text
  pub labels : Map Text Text
  pub version : Text

-- `body` has the members other than `metadata`
pub record Resource : Type 0 where
  pub meta : Meta
  pub body : Members

-- a name, and a namespace if one is asked for
pub record Query : Type 0 where
  pub name : Text
  pub namespace : Option Text

unfoldable pub asks_namespace : Option Text → Text → Bool
asks_namespace none namespace = true
asks_namespace (some asked) namespace = namespace == asked

unfoldable pub matches : Query → Resource → Bool
unfolding asks_namespace
matches q r = r.meta.name == q.name && asks_namespace q.namespace r.meta.namespace

pub record Collection (C : Type 0) : Type 0 where
  pub find_one : Query → C → Option Resource
  pub insert_one : Resource → C → C
  pub find_one_and_update : Query → (Resource → Resource) → C → Option Resource × C
  pub find_one_and_replace : Query → Resource → C → Option Resource × C
  pub find_one_and_delete : Query → C → Option Resource × C

-- with `new: true`, an update returns what it has written; a document goes on to be found by a query that
-- it still matches, and what is not found is not written
pub record IsCollection {C : Type 0} (model : Collection C) : Type 0 where
  pub found-matches :
      (q : Query) (c : C) (r : Resource) → model.find_one q c ≡ some r → matches q r ≡ true
  pub update-found :
      (q : Query) (f : Resource → Resource) (c : C) (r : Resource)
      → model.find_one q c ≡ some r
      → matches q (f r) ≡ true
      → ((model.find_one_and_update q f c).0 ≡ some (f r))
        × (model.find_one q (model.find_one_and_update q f c).1 ≡ some (f r))
  pub replace-found :
      (q : Query) (new : Resource) (c : C) (r : Resource)
      → model.find_one q c ≡ some r
      → matches q new ≡ true
      → ((model.find_one_and_replace q new c).0 ≡ some new)
        × (model.find_one q (model.find_one_and_replace q new c).1 ≡ some new)
  pub delete-found :
      (q : Query) (c : C) (r : Resource)
      → model.find_one q c ≡ some r
      → (model.find_one_and_delete q c).0 ≡ some r

pub data Event : Type 0 where
  created updated deleted : Resource → Event

-- the collection, the last version that was handed out, and what was told on the kind's bus
pub record World (C : Type 0) : Type 0 where
  pub items : C
  pub counter : ℕ
  pub events : List Event
