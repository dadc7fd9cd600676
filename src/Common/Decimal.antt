-- ===== src/Common/Decimal.antt =====
-- `%d` and `%u` of a number that is not negative: its decimal digits as character codes.
use Prim.Native.Nat.{ℕ, zero, suc, ◌≤◌, ◌+◌, ◌-◌, ◌*◌, ◌/◌, ◌%◌, ◌<◌}
use mathlib.Core.Path.{◌≡◌, refl, sym, ap, ◌∙◌}
use mathlib.Core.Logic.{inl, inr}
use mathlib.Core.List.{List, [], ◌∷◌, ◌++◌}
use native.Mathlib.Omega.{arith}
use mu_muduo.Common.Lists.{length, length-append}
use mu_muduo.Common.Tests.{ltb, if◌then◌else◌, Bool-cases, tests, lt→ltb, ge→ltb}

-- The fuel is the number plus one; every round takes a digit off.
decimal_fuel : ℕ → ℕ → List ℕ
decimal_fuel zero n = []
decimal_fuel (suc f) n =
    let front = decimal_fuel f (n / 10) in
    if ltb n 10 then (48 + n) ∷ [] else front ++ (48 + n % 10) ∷ []

unfoldable pub decimal : ℕ → List ℕ
unfolding decimal_fuel
decimal n = decimal_fuel (n + 1) n

unfoldable pub read_decimal : ℕ → List ℕ → ℕ
read_decimal acc [] = acc
read_decimal acc (c ∷ cs) = read_decimal (10 * acc + (c - 48)) cs

read_decimal-append :
    (acc : ℕ) (xs ys : List ℕ) → read_decimal acc (xs ++ ys) ≡ read_decimal (read_decimal acc xs) ys
unfolding read_decimal
read_decimal-append acc [] ys = refl
read_decimal-append acc (x ∷ xs) ys = read_decimal-append (10 * acc + (x - 48)) xs ys

read-decimal_fuel : (f n : ℕ) → n < f → read_decimal 0 (decimal_fuel f n) ≡ n
unfolding decimal_fuel read_decimal
read-decimal_fuel zero n h = elim h [ ]
read-decimal_fuel (suc f) n h = elim (Bool-cases (ltb n 10)) [
  | inl small ↦ rw small (one_digit n (omega (tests, small)))
  | inr large ↦
      rw
        (
          large,
          read_decimal-append 0 (decimal_fuel f (n / 10)) ((48 + n % 10) ∷ []),
          read-decimal_fuel f (n / 10) (omega (tests, large)),
        )
        (last_digit n)
]
  where
    one_digit : (n : ℕ) → n < 10 → read_decimal 0 ((48 + n) ∷ []) ≡ n
    one_digit n h = omega arith

    last_digit : (n : ℕ) → read_decimal (n / 10) ((48 + n % 10) ∷ []) ≡ n
    last_digit n = omega arith

-- Reading the digits back gives the number: no two numbers print alike.
pub read-decimal : (n : ℕ) → read_decimal 0 (decimal n) ≡ n
unfolding decimal
read-decimal n = read-decimal_fuel (n + 1) n (omega arith)

pub decimal_inj : (m n : ℕ) → decimal m ≡ decimal n → m ≡ n
decimal_inj m n e = sym (read-decimal m) ∙ ap (read_decimal 0) e ∙ read-decimal n

-- `10 ^ k`, by the recursion that a digit takes.
abbrev pub power_of_ten : ℕ → ℕ
power_of_ten zero = 1
power_of_ten (suc k) = 10 * power_of_ten k

length-decimal_fuel : (f k n : ℕ) → n < power_of_ten (suc k) → length (decimal_fuel f n) ≤ suc k
unfolding decimal_fuel
length-decimal_fuel zero k n h = omega arith
length-decimal_fuel (suc f) zero n h = ground arith
length-decimal_fuel (suc f) (suc k) n h = elim (Bool-cases (ltb n 10)) [
  | inl small ↦ rw small (omega arith)
  | inr large ↦
      rw (large, length-append (decimal_fuel f (n / 10)) ((48 + n % 10) ∷ []))
        (omega (arith, length-decimal_fuel f k (n / 10) (omega arith)))
]

-- A number below `10 ^ (k + 1)` has at most `k + 1` digits.
pub length-decimal : (k n : ℕ) → n < power_of_ten (suc k) → length (decimal n) ≤ suc k
unfolding decimal
length-decimal k n = length-decimal_fuel (n + 1) k n

-- Enough fuel is enough.
decimal_fuel_enough : (f g n : ℕ) → n < f → n < g → decimal_fuel f n ≡ decimal_fuel g n
unfolding decimal_fuel
decimal_fuel_enough zero g n h k = elim h [ ]
decimal_fuel_enough (suc f) zero n h k = elim k [ ]
decimal_fuel_enough (suc f) (suc g) n h k = elim (Bool-cases (ltb n 10)) [
  | inl small ↦ rw small refl
  | inr large ↦
      rw (large, decimal_fuel_enough f g (n / 10) (omega (tests, large)) (omega (tests, large)))
]

decimal_fuel_digit : (f n : ℕ) → n < f → n < 10 → decimal_fuel f n ≡ (48 + n) ∷ []
unfolding decimal_fuel
decimal_fuel_digit zero n h k = elim h [ ]
decimal_fuel_digit (suc f) n h k = rw (lt→ltb n 10 k) refl

decimal_fuel_more :
    (f n : ℕ)
    → n < f
    → 10 ≤ n
    → decimal_fuel f n ≡ decimal_fuel (n / 10 + 1) (n / 10) ++ (48 + n % 10) ∷ []
unfolding decimal_fuel
decimal_fuel_more zero n h k = elim h [ ]
decimal_fuel_more (suc f) n h k = rw (ge→ltb n 10 k) (
    ap (λ front. front ++ (48 + n % 10) ∷ [])
      (decimal_fuel_enough f (n / 10 + 1) (n / 10) (omega arith) (omega arith)))

pub decimal_digit : (n : ℕ) → n < 10 → decimal n ≡ (48 + n) ∷ []
unfolding decimal
decimal_digit n = decimal_fuel_digit (n + 1) n (omega arith)

-- The last digit stands behind the text of the rest.
pub decimal_more : (n : ℕ) → 10 ≤ n → decimal n ≡ decimal (n / 10) ++ (48 + n % 10) ∷ []
unfolding decimal
decimal_more n = decimal_fuel_more (n + 1) n (omega arith)
