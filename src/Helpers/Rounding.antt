-- ===== src/Helpers/Rounding.antt =====
-- How far off the age is that functions.js shows.
use nodejs_k8s.Prelude.{
  ℕ, ◌+◌, ◌-◌, ◌*◌, ◌/◌, ◌%◌, ◌≤◌, Bool, true, false, ltb, nat_beq, arith, ◌≡◌, refl, if◌then◌else◌,
}
use nodejs_k8s.Helpers.Duration.{
  Shown, seconds, minutes, hours, days, years, minutes_seconds, hours_minutes, days_hours,
  years_days, human,
}

-- the time that a printed text stands for, in seconds
unfoldable pub shown_seconds : Shown → ℕ
shown_seconds (seconds n) = n
shown_seconds (minutes n) = n * 60
shown_seconds (hours n) = n * 3600
shown_seconds (days n) = n * 86400
shown_seconds (years n) = n * 31536000
shown_seconds (minutes_seconds m s) = m * 60 + s
shown_seconds (hours_minutes h m) = h * 3600 + m * 60
shown_seconds (days_hours d h) = d * 86400 + h * 3600
shown_seconds (years_days y d) = y * 31536000 + d * 86400

-- a text that is not above the time, and not far below it
IsNear : ℕ → Shown → Type 0
IsNear s shown = (shown_seconds shown ≤ s) × ((s - shown_seconds shown) * 8 ≤ shown_seconds shown)

branch :
    (s : ℕ) (test : Bool) (one other : Shown)
    → (test ≡ true → IsNear s one)
    → (test ≡ false → IsNear s other)
    → IsNear s (if test then one else other)
branch s true one other at_true at_false = at_true refl
branch s false one other at_true at_false = at_false refl

-- What is printed of an age in seconds is not more than the age, and falls short of it by at most an
-- eighth of what is printed.
pub human-near :
    (s : ℕ)
    → (shown_seconds (human s) ≤ s) × ((s - shown_seconds (human s)) * 8 ≤ shown_seconds (human s))
unfolding human IsNear shown_seconds
human-near s =
    branch s (ltb s 120) _ _ (λ a. ground arith)
      (λ a.
        branch s (ltb (s / 60) 10) _ _
          (λ b.
            branch s (nat_beq (s % 60) 0) _ _ (λ z. ground (arith, a, b, z))
              (λ z. ground (arith, a, b, z)))
          (λ b.
            branch s (ltb (s / 60) 180) _ _ (λ c. ground (arith, b, c))
              (λ c.
                branch s (ltb (s / 60 / 60) 8) _ _
                  (λ d.
                    branch s (nat_beq (s / 60 % 60) 0) _ _ (λ z. ground (arith, c, d, z))
                      (λ z. ground (arith, c, d, z)))
                  (λ d.
                    branch s (ltb (s / 60 / 60) 48) _ _ (λ e. ground (arith, d, e))
                      (λ e.
                        branch s (ltb (s / 60 / 60 / 24) 8) _ _
                          (λ f.
                            branch s (nat_beq (s / 60 / 60 % 24) 0) _ _
                              (λ z. ground (arith, e, f, z)) (λ z. ground (arith, e, f, z)))
                          (λ f.
                            branch s (ltb (s / 60 / 60 / 24) 365) _ _ (λ g. ground (arith, f, g))
                              (λ g.
                                branch s (nat_beq (s / 60 / 60 / 24 % 365) 0) _ _
                                  (λ z. ground (arith, g, z)) (λ z. ground (arith, g, z)))))))))
