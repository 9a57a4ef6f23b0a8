-- ===== src/Workloads/Ownership.antt =====
-- No controller is two deployments', and no pod is by its name two controllers'.
use nodejs_k8s.Prelude.{
  ℕ, Bool, true, false, some, [], ◌∷◌, ◌++◌, Text, text_beq, text_beq_iff, every, ◌≡◌, refl, ap,
  sym, ◌∙◌, arith, Option-cases, inl, inr,
}
use nodejs_k8s.Workloads.Names.{
  hyphen, is_digit, is_hex, behind, is_generation, is_suffix, Owner, Owned, owned_controllers,
  behind-some,
}

module _ (q : ℕ → Bool) (no_hyphen : q hyphen ≡ false) where
  every-hyphen : (front back : Text) → every q (front ++ hyphen ∷ back) ≡ false
  unfolding every
  every-hyphen [] back = ground (arith, no_hyphen)
  every-hyphen (c ∷ front) back = ground (arith, every-hyphen front back)

  every-not_hyphen :
      (rest front back : Text) → rest ≡ front ++ hyphen ∷ back → every q rest ≡ true → ⊥
  every-not_hyphen rest front back same all =
      ground (arith, every-hyphen front back, ap (every q) same, all)

  -- The name in front of the last hyphen is one.
  front_unique :
      (x y r s : Text)
      → x ++ hyphen ∷ r ≡ y ++ hyphen ∷ s
      → every q r ≡ true
      → every q s ≡ true
      → x ≡ y
  front_unique [] [] r s same all_r all_s = refl
  front_unique [] (c ∷ y) r s same all_r all_s =
      absurd (every-not_hyphen r y s (ground (arith, same)) all_r)
  front_unique (c ∷ x) [] r s same all_r all_s =
      absurd (every-not_hyphen s x r (ground (arith, same)) all_s)
  front_unique (c ∷ x) (d ∷ y) r s same all_r all_s =
      let head : c ≡ d = ground (arith, same) in
      let tail : x ++ hyphen ∷ r ≡ y ++ hyphen ∷ s = ground (arith, same) in
      rw (head, front_unique x y r s tail all_r all_s) refl

generation :
    (x name : Text)
    → is_generation (behind x name) ≡ true
    → (rest : Text) × (name ≡ x ++ hyphen ∷ rest) × (every is_digit rest ≡ true)
unfolding is_generation
generation x name h = elim (Option-cases (behind x name)) [
  | inl none' ↦ absurd (ground (arith, h, ap is_generation none'))
  | inr (rest, some') ↦
      let all : is_generation (some rest) ≡ true = sym (ap is_generation some') ∙ h in
      (rest, behind-some x name rest some', ground (arith, all))
]

-- A controller that two deployments count as theirs is one deployment's: they have the same name and
-- namespace.
pub owned_controllers_once :
    (d e : Owner) (rc : Owned)
    → owned_controllers d rc ≡ true
    → owned_controllers e rc ≡ true
    → (d.name ≡ e.name) × (d.namespace ≡ e.namespace)
unfolding owned_controllers
owned_controllers_once d e rc mine yours =
    let gen_d : is_generation (behind d.name rc.name) ≡ true = ground (arith, mine) in
    let gen_e : is_generation (behind e.name rc.name) ≡ true = ground (arith, yours) in
    let ns_d : text_beq rc.namespace d.namespace ≡ true = ground (arith, mine) in
    let ns_e : text_beq rc.namespace e.namespace ≡ true = ground (arith, yours) in
    let (r, at_d, all_r) = generation d.name rc.name gen_d in
    let (s, at_e, all_s) = generation e.name rc.name gen_e in
    (
      front_unique is_digit refl d.name e.name r s (sym at_d ∙ at_e) all_r all_s,
      sym ((text_beq_iff rc.namespace d.namespace).0 ns_d)
          ∙ (text_beq_iff rc.namespace e.namespace).0 ns_e,
    )

pub suffixed :
    (x name : Text)
    → is_suffix (behind x name) ≡ true
    → (rest : Text) × (name ≡ x ++ hyphen ∷ rest) × (every is_hex rest ≡ true)
unfolding is_suffix
suffixed x name h = elim (Option-cases (behind x name)) [
  | inl none' ↦ absurd (ground (arith, h, ap is_suffix none'))
  | inr (rest, some') ↦
      let all : is_suffix (some rest) ≡ true = sym (ap is_suffix some') ∙ h in
      (rest, behind-some x name rest some', ground (arith, all))
]

pub is_suffix_once :
    (x y name : Text) → is_suffix (behind x name) ≡ true → is_suffix (behind y name) ≡ true → x ≡ y
is_suffix_once x y name mine yours =
    let (r, at_x, all_r) = suffixed x name mine in
    let (s, at_y, all_s) = suffixed y name yours in
    front_unique is_hex refl x y r s (sym at_x ∙ at_y) all_r all_s
