-- ===== src/Scheduler/Totals.antt =====
-- Sums over the lists of controllers/scheduler.js, and over a list that an update has changed.
use nodejs_k8s.Prelude.{
  ℕ, ◌+◌, ◌≤◌, Bool, some, List, [], ◌∷◌, ◌≡◌, refl, arith, text_eq, find, Bool-cases, Option-cases,
  inl, inr,
}
use nodejs_k8s.Scheduler.Schedule.{update_first, put_before, or_same}

unfoldable pub total : {A : Type 0} → (A → ℕ) → List A → ℕ
total weight [] = 0
total weight (x ∷ xs) = weight x + total weight xs

module _ {A : Type 0} (weight : A → ℕ) (q : A → Bool) (f : A → A) where
  pub total-update_first :
      (xs ys : List A) (x : A)
      → find q xs ≡ some x
      → update_first q f xs ≡ some ys
      → total weight ys + weight x ≡ total weight xs + weight (f x)
  unfolding find update_first put_before total
  total-update_first [] ys x found updated = absurd (ground (arith, found))
  total-update_first (y ∷ xs) ys x found updated = elim (Bool-cases (q y)) [
    | inl here ↦
        let same : y ≡ x = ground (arith, here, found) in
        let all : f y ∷ xs ≡ ys = ground (arith, here, updated) in rw (← all, same) (omega arith)
    | inr other ↦ elim (Option-cases (update_first q f xs)) [
      | inl none' ↦ absurd (ground (arith, other, none', updated))
      | inr (zs, some') ↦
          let all : y ∷ zs ≡ ys = ground (arith, other, some', updated) in
          let ih = total-update_first xs zs x (ground (arith, other, found)) some' in
          rw (← all) (omega (arith, ih))
    ]
  ]

  pub total-or_same :
      (xs : List A)
      → ((x : A) → weight (f x) ≡ weight x)
      → total weight (or_same xs (update_first q f xs)) ≡ total weight xs
  unfolding update_first put_before total or_same
  total-or_same [] same = refl
  total-or_same (x ∷ xs) same = elim (Bool-cases (q x)) [
    | inl here ↦ ground (arith, here, same x)
    | inr other ↦ elim (Option-cases (update_first q f xs)) [
      | inl none' ↦ ground (arith, other, none')
      | inr (ys, some') ↦ ground (arith, other, some', total-or_same xs same)
    ]
  ]

pub total-le :
    {A : Type 0} (light heavy : A → ℕ) (xs : List A)
    → ((x : A) → light x ≤ heavy x)
    → total light xs ≤ total heavy xs
unfolding total
total-le light heavy [] le = omega arith
total-le light heavy (x ∷ xs) le = omega (arith, le x, total-le light heavy xs le)
