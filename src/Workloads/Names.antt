-- ===== src/Workloads/Names.antt =====
-- Which controllers are a deployment's, by `ownedControllers` of objects/deployment.js, and which pods are
-- a controller's, by `ownedPods` of objects/replicationController.js. A regular expression whose name is
-- escaped and anchored is a test of what stands behind the name.
use nodejs_k8s.Prelude.{
  ℕ, Bool, true, false, not, ◌&&◌, ◌||◌, Option, none, some, List, [], ◌∷◌, ◌++◌, Text, nat_eq,
  text_eq, length, every, any, leb, nat_beq, ◌==◌, if◌then◌else◌, ◌≡◌, refl, arith, nat_beq_iff,
}

-- "-"
abbrev pub hyphen : ℕ
hyphen = 45

abbrev pub is_digit : ℕ → Bool
is_digit c = leb 48 c && leb c 57

-- `[0-9a-f]`
abbrev pub is_hex : ℕ → Bool
is_hex c = is_digit c || (leb 97 c && leb c 102)

-- what stands in a text behind a prefix and a hyphen
unfoldable pub behind : Text → Text → Option Text
behind [] [] = none
behind [] (c ∷ cs) = if nat_beq c hyphen then some cs else none
behind (x ∷ xs) [] = none
behind (x ∷ xs) (c ∷ cs) = let rest = behind xs cs in if nat_beq c x then rest else none

abbrev pub is_empty : Text → Bool
is_empty [] = true
is_empty (c ∷ cs) = false

-- `-\d+$`
unfoldable pub is_generation : Option Text → Bool
is_generation none = false
is_generation (some t) = not (is_empty t) && every is_digit t

-- `-[0-9a-f]{6}$`
unfoldable pub is_suffix : Option Text → Bool
is_suffix none = false
is_suffix (some t) = nat_beq (length t) 6 && every is_hex t

pub record Owner : Type 0 where
  pub name : Text
  pub namespace : Text
  pub uid : Text

-- a pod, or a controller: what the queries look at
pub record Owned : Type 0 where
  pub name : Text
  pub namespace : Text
  pub owner_uids : List Text

unfoldable pub owned_controllers : Owner → Owned → Bool
unfolding behind is_generation
owned_controllers d rc = is_generation (behind d.name rc.name) && rc.namespace == d.namespace

-- Without a uid only the name is asked about.
unfoldable pub owned_pods : Owner → Owned → Bool
unfolding behind is_suffix
owned_pods rc p =
    p.namespace == rc.namespace
    && ((not (is_empty rc.uid) && any (λ uid. uid == rc.uid) p.owner_uids)
        || is_suffix (behind rc.name p.name))

pub behind-append : (x rest : Text) → behind x (x ++ hyphen ∷ rest) ≡ some rest
unfolding behind
behind-append [] rest = refl
behind-append (c ∷ x) rest = ground (arith, behind-append x rest)

pub behind-some : (x name rest : Text) → behind x name ≡ some rest → name ≡ x ++ hyphen ∷ rest
unfolding behind
behind-some [] [] rest h = absurd (ground (arith, h))
behind-some [] (c ∷ cs) rest h = ground (arith, h, nat_beq_iff c hyphen)
behind-some (x ∷ xs) [] rest h = absurd (ground (arith, h))
behind-some (x ∷ xs) (c ∷ cs) rest h = ground (arith, h, nat_beq_iff c x, behind-some xs cs rest)
