-- ===== src/Helpers/Duration.antt =====
-- `duration` and `age` of functions.js, which a table shows in the AGE column. Times are in milliseconds.
use nodejs_k8s.Prelude.{ℕ, ◌-◌, ◌/◌, ◌%◌, Option, none, some, ltb, nat_beq, if◌then◌else◌}

-- what is printed: an amount with its unit, and in some ranges a second one behind it
pub data Shown : Type 0 where
  seconds minutes hours days years : ℕ → Shown
  minutes_seconds hours_minutes days_hours years_days : ℕ → ℕ → Shown

abbrev pub with_rest : (ℕ → ℕ → Shown) → (ℕ → Shown) → ℕ → ℕ → Shown
with_rest both one amount rest = if nat_beq rest 0 then one amount else both amount rest

-- at a number of seconds
unfoldable pub human : ℕ → Shown
human s =
    let m = s / 60 in
    let h = m / 60 in
    let d = h / 24 in
    if ltb s 120
    then seconds s
    else if ltb m 10
    then with_rest minutes_seconds minutes m (s % 60)
    else if ltb m 180
    then minutes m
    else if ltb h 8
    then with_rest hours_minutes hours h (m % 60)
    else if ltb h 48
    then hours h
    else if ltb d 8
    then with_rest days_hours days d (h % 24)
    else if ltb d 365
    then days d
    else with_rest years_days years (d / 365) (d % 365)

-- A difference that is no finite number, or is below 0, is `none`.
unfoldable pub duration : Option ℕ → Shown
unfolding human
duration none = seconds 0
duration (some milliseconds) = human (milliseconds / 1000)

-- `'<unknown>'` where the text is no date; `-` stops at 0, as `Math.max(0, ...)` does
unfoldable pub age : ℕ → Option ℕ → Option Shown
unfolding duration
age now none = none
age now (some created) = some (duration (some (now - created)))
