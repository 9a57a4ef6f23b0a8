-- ===== src/Objects/Examples.antt =====
-- The theorems of the resources at concrete inputs, with a collection that is a list.
use nodejs_k8s.Prelude.{
  Bool-cases, inl, inr, ℕ, true, length, Option, none, some, List, [], ◌∷◌, ◌++◌, ◌≡◌, refl, ap,
  arith, Text, text_eq, if◌then◌else◌, find, filter, zero, suc,
}
use nodejs_k8s.Json.Value.{boolean, number, no_members, member}
use nodejs_k8s.Json.Members.{get}
use nodejs_k8s.Objects.Types.{Resource, Query, Collection, IsCollection, World, matches}
use nodejs_k8s.Objects.Writes.{is_deleting, MetaChange}
use nodejs_k8s.Objects.Requests.{PutRequest, conflict, answered, put_one}
use nodejs_k8s.Handlers.Checks.{
  immutable_key, is_immutable, is_exempt, rejects_immutable, once, is_dry_run, asks_dry_run,
  conflicts, shown,
}
use nodejs_k8s.Json.Same.{same_value, same, canonical}
use nodejs_k8s.Objects.Immutable.{put_one-immutable}
use nodejs_k8s.Objects.Changes.{Scale, scaled, ScaleRequest, get_scale, set_scale}
use nodejs_k8s.Objects.DryRuns.{Call, deletes, is_dry, left_by, dry_run-unchanged}
use nodejs_k8s.Objects.Scaling.{set_scale-get_scale}
use nodejs_k8s.Objects.Paging.{follow}
use nodejs_k8s.Objects.Pages.{follow-all}
use nodejs_k8s.Objects.Replies.{is_released, successor, put_one-stale}

change_first : Query → (Resource → Resource) → List Resource → Option Resource × List Resource
change_first q f [] = (none, [])
change_first q f (r ∷ rs) =
    let rest = change_first q f rs in
    if matches q r then (some (f r), f r ∷ rs) else (rest.0, r ∷ rest.1)

delete_first : Query → List Resource → Option Resource × List Resource
delete_first q [] = (none, [])
delete_first q (r ∷ rs) =
    let rest = delete_first q rs in if matches q r then (some r, rs) else (rest.0, r ∷ rest.1)

abbrev listed : Collection (List Resource)
listed = record {
  find_one = λ q rs. find (matches q) rs;
  insert_one = λ r rs. rs ++ r ∷ [];
  find_one_and_update = change_first;
  find_one_and_replace = λ q new rs. change_first q (λ r. new) rs;
  find_one_and_delete = delete_first;
}

found-holds :
    (q : Query) (rs : List Resource) (r : Resource)
    → find (matches q) rs ≡ some r
    → matches q r ≡ true
unfolding find
found-holds q [] r h = absurd (ground (arith, h))
found-holds q (x ∷ rs) r h = elim (Bool-cases (matches q x)) [
  | inl here ↦ let same : x ≡ r = ground (arith, h, here) in rw (← same) here
  | inr other ↦ found-holds q rs r (ground (arith, h, other))
]

change_first-found :
    (q : Query) (f : Resource → Resource) (rs : List Resource) (r : Resource)
    → find (matches q) rs ≡ some r
    → matches q (f r) ≡ true
    → ((change_first q f rs).0 ≡ some (f r))
      × (find (matches q) (change_first q f rs).1 ≡ some (f r))
unfolding find change_first
change_first-found q f [] r h kept = absurd (ground (arith, h))
change_first-found q f (x ∷ rs) r h kept = elim (Bool-cases (matches q x)) [
  | inl here ↦
      let same : x ≡ r = ground (arith, h, here) in
      let kept' : matches q (f x) ≡ true = rw same kept in
      let out : f x ≡ f r = ap f same in rw here (ap some out, rw kept' (ap some out))
  | inr other ↦
      let (a, b) = change_first-found q f rs r (ground (arith, h, other)) kept in
      rw other (a, rw other b)
]

delete_first-found :
    (q : Query) (rs : List Resource) (r : Resource)
    → find (matches q) rs ≡ some r
    → (delete_first q rs).0 ≡ some r
unfolding find delete_first
delete_first-found q [] r h = absurd (ground (arith, h))
delete_first-found q (x ∷ rs) r h = elim (Bool-cases (matches q x)) [
  | inl here ↦ ground (arith, h, here)
  | inr other ↦ ground (arith, other, delete_first-found q rs r (ground (arith, h, other)))
]

listed-IsCollection : IsCollection listed
listed-IsCollection = record {
  found-matches = λ q rs r h. found-holds q rs r h;
  update-found = λ q f rs r h kept. change_first-found q f rs r h kept;
  replace-found = λ q new rs r h kept. change_first-found q (λ x. new) rs r h kept;
  delete-found = λ q rs r h. delete_first-found q rs r h;
}

-- a version prints as so many strokes
abbrev strokes : ℕ → Text
strokes zero = []
strokes (suc n) = b'|' ∷ strokes n

abbrev guarded : Resource
guarded = record {
  meta = record {
    name = b'a' ∷ [];
    namespace = b'n' ∷ [];
    uid = b'u' ∷ [];
    creation = b'0' ∷ [];
    deletion = none;
    finalizers = (b'f' ∷ []) ∷ [];
    labels = [];
    version = b'|' ∷ [];
  };
  body = no_members;
}

abbrev its_query : Query
its_query = record { name = b'a' ∷ []; namespace = some (b'n' ∷ []) }

abbrev world : World (List Resource)
world = record { items = guarded ∷ []; counter = 1; events = [] }

is_there : find (matches its_query) world.items ≡ some guarded
unfolding find matches
is_there = refl

-- a change that asks for the deletion and takes the finalizer away
abbrev releasing : MetaChange
releasing = record { deletion = some (some (b'3' ∷ [])); finalizers = some []; labels = none }

abbrev relabelling : MetaChange
relabelling = record { deletion = none; finalizers = none; labels = some [] }

abbrev put_request : PutRequest
put_request = record {
  query = its_query;
  sent_version = some (b'|' ∷ []);
  query_dry_run = none;
  body_dry_run = none;
  content = some (relabelling, no_members);
}

abbrev next_world : World (List Resource)
next_world = (put_one listed strokes put_request world).1

put_one-stale_example : put_one listed strokes put_request next_world ≡ (conflict, next_world)
unfolding put_one find matches get change_first successor is_released
put_one-stale_example =
    put_one-stale listed strokes listed-IsCollection put_request put_request guarded
      (successor listed strokes guarded relabelling no_members world) relabelling no_members
      (relabelling, no_members) world next_world is_there refl refl refl
      (λ h. absurd (ground (arith, h))) (λ h. absurd (ground (arith, h))) refl refl refl

abbrev frozen_resource : Resource
frozen_resource = record guarded {
  body = member immutable_key (boolean true) (member (b'd' ∷ []) (number 1) no_members);
}

abbrev frozen_world : World (List Resource)
frozen_world = record { items = frozen_resource ∷ []; counter = 1; events = [] }

-- the same members in another order
abbrev freezing_request : PutRequest
freezing_request = record {
  query = its_query;
  sent_version = none;
  query_dry_run = none;
  body_dry_run = none;
  content =
      some (
        relabelling,
        member (b'd' ∷ []) (number 1) (member immutable_key (boolean true) no_members),
      );
}

abbrev still_frozen : Resource
still_frozen =
    successor listed strokes frozen_resource relabelling
      (member (b'd' ∷ []) (number 1) (member immutable_key (boolean true) no_members)) frozen_world

abbrev later_world : World (List Resource)
later_world = (put_one listed strokes freezing_request frozen_world).1

frozen_there : find (matches its_query) frozen_world.items ≡ some frozen_resource
unfolding find matches
frozen_there = refl

frozen_put :
    put_one listed strokes freezing_request frozen_world ≡ (answered still_frozen, later_world)
unfolding put_one find matches get change_first successor rejects_immutable filter same_value same
    canonical is_dry_run asks_dry_run conflicts
frozen_put = refl

put_one-immutable_example :
    (find (matches its_query) later_world.items ≡ some still_frozen)
    × (same_value (get (b'd' ∷ []) frozen_resource.body) (get (b'd' ∷ []) still_frozen.body) ≡ true)
unfolding get is_released successor is_immutable is_exempt
put_one-immutable_example =
    put_one-immutable listed strokes listed-IsCollection freezing_request frozen_resource
      still_frozen frozen_world later_world (b'd' ∷ []) frozen_there refl refl frozen_put refl

-- a token of strokes
abbrev count_strokes : Text → Option ℕ
count_strokes t = some (length t)

length-strokes : (n : ℕ) → count_strokes (strokes n) ≡ some n
length-strokes zero = refl
length-strokes (suc n) =
    ap (λ (o : Option ℕ). elim o [ none ↦ none | some m ↦ some (suc m) ]) (length-strokes n)

abbrev three : List ℕ
three = 1 ∷ 2 ∷ 3 ∷ []

follow-all_example : follow strokes count_strokes 4 2 none three ≡ three
follow-all_example = follow-all strokes count_strokes length-strokes 2 three

-- `?dryRun=All` on a deletion
abbrev dry_deletion : Call
dry_deletion = deletes its_query (some (once (b'A' ∷ b'l' ∷ b'l' ∷ []))) none (b'1' ∷ [])

dry_run-unchanged_example : left_by listed strokes dry_deletion world ≡ world
unfolding is_dry is_dry_run asks_dry_run
dry_run-unchanged_example = dry_run-unchanged listed strokes dry_deletion world refl

abbrev scale_request : ScaleRequest
scale_request = record {
  query = its_query;
  sent_version = some (b'|' ∷ []);
  query_dry_run = none;
  body_dry_run = none;
  replicas = some 5;
}

set_scale-get_scale_example :
    let (reply, w') = set_scale listed strokes scale_request world in
    (scale : Scale) × (reply ≡ scaled scale)
    × (scale.replicas ≡ number 5)
    × (get_scale listed strokes its_query w' ≡ scaled scale)
unfolding is_deleting conflicts is_dry_run asks_dry_run shown
set_scale-get_scale_example =
    set_scale-get_scale listed strokes listed-IsCollection scale_request 5 guarded world refl
      is_there refl refl refl
