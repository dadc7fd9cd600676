-- ===== src/Timestamp/Format.antt =====
-- The text of a time, digit by digit, and the way back.
use mu_muduo.Common.{
  ℕ, ◌+◌, ◌/◌, ◌%◌, ◌<◌, ◌≤◌, ◌≡◌, refl, ap₂, List, [], ◌∷◌, ◌++◌, length, take, drop,
  decimal_digit, decimal_more, read_decimal, arith, Bool-cases, inl, inr, ltb, tests,
}
use mu_muduo.Timestamp.{Tm, Calendar, Timestamp, padded, format_tm, to_string}

-- The text of two digits.
abbrev two : ℕ → List ℕ
two n = (48 + n / 10) ∷ (48 + n % 10) ∷ []

padded-two : (n : ℕ) → n < 100 → padded 48 2 n ≡ two n
unfolding padded
padded-two n h = elim (Bool-cases (ltb n 10)) [
  | inl small ↦
      let zero_front : 48 ≡ 48 + n / 10 = omega (tests, small) in
      let last : 48 + n ≡ 48 + n % 10 = omega (tests, small) in
      rw (decimal_digit n (omega (tests, small))) (ap₂ (λ a b. a ∷ b ∷ []) zero_front last)
  | inr large ↦
      rw (decimal_more n (omega (tests, large)), decimal_digit (n / 10) (omega (tests, large)))
]

abbrev four : ℕ → List ℕ
four n = (48 + n / 1000) ∷ (48 + n / 100 % 10) ∷ (48 + n / 10 % 10) ∷ (48 + n % 10) ∷ []

padded-four : (n : ℕ) → 1000 ≤ n → n < 10000 → padded 32 4 n ≡ four n
unfolding padded
padded-four n h k =
    let a : n / 10 / 10 / 10 ≡ n / 1000 = omega arith in
    let b : n / 10 / 10 % 10 ≡ n / 100 % 10 = omega arith in
    rw (
      decimal_more n (omega arith),
      decimal_more (n / 10) (omega arith),
      decimal_more (n / 10 / 10) (omega arith),
      decimal_digit (n / 10 / 10 / 10) (omega arith),
      a,
      b,
    )

-- The nineteen characters of a time.
abbrev nineteen : Tm → List ℕ
nineteen t =
    four t.year
    ++ 47
      ∷ (two t.month
          ++ 47 ∷ (two t.day ++ 32 ∷ (two t.hour ++ 58 ∷ (two t.minute ++ 58 ∷ two t.second))))

-- Reads the six numbers back from their places.
abbrev pub read_tm : List ℕ → Tm
read_tm s = record {
  year = read_decimal 0 (take 4 s);
  month = read_decimal 0 (take 2 (drop 5 s));
  day = read_decimal 0 (take 2 (drop 8 s));
  hour = read_decimal 0 (take 2 (drop 11 s));
  minute = read_decimal 0 (take 2 (drop 14 s));
  second = read_decimal 0 (take 2 (drop 17 s));
}

InRange : Tm → Type 0
InRange t =
    (1000 ≤ t.year)
    × (t.year < 10000)
    × (t.month < 100)
    × (t.day < 100)
    × (t.hour < 100)
    × (t.minute < 100)
    × (t.second < 100)

format_tm_lem : (t : Tm) → InRange t → format_tm t ≡ nineteen t
unfolding format_tm InRange
format_tm_lem t (a, b, c, d, e, f, g) = rw (
  padded-four t.year a b,
  padded-two t.month c,
  padded-two t.day d,
  padded-two t.hour e,
  padded-two t.minute f,
  padded-two t.second g,
)

read_two : (n : ℕ) → read_decimal 0 (two n) ≡ n
unfolding read_decimal
read_two n = omega arith

read_four : (n : ℕ) → n < 10000 → read_decimal 0 (four n) ≡ n
unfolding read_decimal
read_four n h = omega arith

read-nineteen : (t : Tm) → InRange t → read_tm (nineteen t) ≡ t
unfolding InRange
read-nineteen t (a, b, c, d, e, f, g) = λ i. record {
  year = read_four t.year b i;
  month = read_two t.month i;
  day = read_two t.day i;
  hour = read_two t.hour i;
  minute = read_two t.minute i;
  second = read_two t.second i;
}

-- The text of a time in the years 1000 to 9999 has nineteen characters, none of them cut, and the six
-- numbers that the calendar gave can be read back from their places.
pub to_string_lem :
    (cal : Calendar) (t : Timestamp)
    → cal.IsCommon t.micro_second_since_epoch
    → (length (to_string cal t) ≡ 19)
      × (read_tm (to_string cal t) ≡ cal.localtime t.micro_second_since_epoch)
unfolding to_string InRange
to_string_lem cal t h =
    let (a, b) = cal.year_bounds t.micro_second_since_epoch h in
    let (c, d, e, f, g) = cal.field_bounds t.micro_second_since_epoch in
    let tm = cal.localtime t.micro_second_since_epoch in
    let range : InRange tm = (
      a,
      b,
      omega (arith, c),
      omega (arith, d),
      omega (arith, e),
      omega (arith, f),
      omega (arith, g),
    ) in
    rw (format_tm_lem tm range) (refl, read-nineteen tm range)
