-- ===== src/Scheduler/Doubles.antt =====
-- The sum of two numbers that are not negative as JavaScript makes it: the exact sum, rounded to one of the
-- doubles, which have 53 bits. The numbers are counted in a unit, a power of two, in which the doubles at
-- hand are whole; sums above the largest double are left out.
use nodejs_k8s.Prelude.{
  ℕ, zero, suc, ◌+◌, ◌*◌, ◌/◌, ◌%◌, ◌≤◌, true, ◌≡◌, arith, refl, ltb, leb, nat_beq, if◌then◌else◌,
}

-- 2 ^ 53
unfoldable pub exact_limit : ℕ
exact_limit = 9007199254740992

-- The distance of the doubles around a number, on as many halvings as the exponents of the doubles allow.
unfoldable pub spacing : ℕ → ℕ → ℕ
spacing zero n = 1
spacing (suc fuel) n = let half = spacing fuel (n / 2) in if ltb n exact_limit then 1 else 2 * half

-- the multiple of `q` that is nearest, and of two the even one
unfoldable pub nearest : (q n : ℕ) → ℕ
nearest q n =
    let low = n / q * q in
    if ltb (2 * (n % q)) q
    then low
    else if ltb q (2 * (n % q))
    then low + q
    else if nat_beq (n / q % 2) 0
    then low
    else low + q

unfoldable pub double_sum : ℕ → ℕ → ℕ
unfolding spacing nearest
double_sum x y = if leb (x + y) exact_limit then x + y else nearest (spacing 2100 (x + y)) (x + y)

-- up to 2 ^ 53 the sum is exact
pub double_sum-exact : (x y : ℕ) → x + y ≤ exact_limit → double_sum x y ≡ x + y
unfolding double_sum
double_sum-exact x y h =
    let small : leb (x + y) exact_limit ≡ true = ground (arith, h) in rw small refl

-- halfway between two doubles, the even one is taken
sum_down : double_sum 9007199254740992 1 ≡ 9007199254740992
unfolding double_sum spacing nearest exact_limit
sum_down = refl

sum_up : double_sum 9007199254740992 3 ≡ 9007199254740996
unfolding double_sum spacing nearest exact_limit
sum_up = refl
