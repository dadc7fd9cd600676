-- ===== src/Timestamp/Moment.antt =====
-- A calendar that shows one moment.
use mu_muduo.Common.{ℕ, ◌≡◌, ◌≤◌, ◌<◌, arith}
use mu_muduo.Timestamp.{Tm, Calendar}

abbrev pub spring : Tm
spring = record { year = 2023; month = 3; day = 9; hour = 7; minute = 5; second = 41 }

pub year_2023 : (t : ℕ) → t ≡ t → (1000 ≤ spring.year) × (spring.year < 10000)
year_2023 t h = omega arith

pub spring_fields :
    (t : ℕ)
    → (spring.month ≤ 12)
      × (spring.day ≤ 31)
      × (spring.hour < 24)
      × (spring.minute < 60)
      × (spring.second ≤ 60)
spring_fields t = omega arith

abbrev pub one_moment : Calendar
one_moment = record {
  localtime = λ t. spring;
  IsCommon = λ t. t ≡ t;
  year_bounds = year_2023;
  field_bounds = spring_fields;
}
