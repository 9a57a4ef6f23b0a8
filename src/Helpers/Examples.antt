-- ===== src/Helpers/Examples.antt =====
-- Ages as functions.js shows them.
use nodejs_k8s.Prelude.{ℕ, ◌-◌, ◌*◌, ◌≤◌, some, ◌≡◌, refl}
use nodejs_k8s.Helpers.Duration.{days, days_hours, minutes_seconds, human, duration, age}
use nodejs_k8s.Helpers.Rounding.{shown_seconds, human-near}

-- 113 days, 2 hours and 10 minutes, as for a node that is up for four months
abbrev months : ℕ
months = 9771000

months_shown : duration (some (months * 1000)) ≡ days 113
unfolding duration human
months_shown = refl

week_shown : duration (some 540000000) ≡ days_hours 6 6
unfolding duration human
week_shown = refl

minutes_shown : age 500000 (some 300000) ≡ some (minutes_seconds 3 20)
unfolding age duration human
minutes_shown = refl

human-near_example :
    (shown_seconds (human months) ≤ months)
    × ((months - shown_seconds (human months)) * 8 ≤ shown_seconds (human months))
human-near_example = human-near months
