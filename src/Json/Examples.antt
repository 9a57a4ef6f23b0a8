-- ===== src/Json/Examples.antt =====
-- The theorems of merge patches and JSON patches at concrete patches.
use nodejs_k8s.Prelude.{ℕ, Option, none, Text, some, [], ◌∷◌, ◌≡◌, refl, text_eq}
use nodejs_k8s.Json.Value.{Json, null, number, object, Members, no_members, member}
use nodejs_k8s.Json.Members.{get, set}
use nodejs_k8s.Json.Merging.{
  AreDistinct, merge_deep, merge_members, merged, get-merge_members, merge_members_twice,
}
use nodejs_k8s.Json.Patches.{slash, tilde, add, apply_patch}
use nodejs_k8s.Json.Pointers.{pointer, look, apply_patch-add}

abbrev inner : Members
inner = member (b'x' ∷ []) (number 1) no_members

abbrev stored : Members
stored = member (b'a' ∷ []) (object inner) (member (b'b' ∷ []) (number 2) no_members)

abbrev patch : Members
patch =
    member (b'a' ∷ []) (object (member (b'y' ∷ []) (number 3) no_members))
      (member (b'b' ∷ []) null no_members)

patch-AreDistinct : AreDistinct patch
unfolding AreDistinct get
patch-AreDistinct = (refl, (refl, tt, tt), (refl, tt, tt))

get-merge_members_example :
    get (b'a' ∷ []) (merge_members stored patch)
    ≡ some (object (member (b'x' ∷ []) (number 1) (member (b'y' ∷ []) (number 3) no_members)))
unfolding get merged merge_deep set
get-merge_members_example = get-merge_members (b'a' ∷ []) stored patch patch-AreDistinct

merge_members_twice_example :
    merge_members (merge_members stored patch) patch ≡ merge_members stored patch
merge_members_twice_example = merge_members_twice stored patch patch-AreDistinct

abbrev no_index : Text → Option ℕ
no_index t = none

abbrev at_start : Text → ℕ → ℕ
at_start t n = 0

-- a name with a slash and a tilde in it
abbrev odd_name : Text
odd_name = b'b' ∷ slash ∷ tilde ∷ b'1' ∷ []

apply_patch-add_example :
    (new : Json) × (apply_patch no_index at_start
        (record { edit = add (number 7); path = pointer ((b'a' ∷ []) ∷ odd_name ∷ []) } ∷ [])
        (object stored)
      ≡ some new)
    × (look no_index at_start ((b'a' ∷ []) ∷ odd_name ∷ []) new ≡ some (number 7))
apply_patch-add_example =
    apply_patch-add no_index at_start (number 7) (b'a' ∷ []) (odd_name ∷ []) (object stored)
      (stored, object inner, refl, unfold get in refl, (inner, refl))
