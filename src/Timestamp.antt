-- ===== src/Timestamp.antt =====
-- Timestamp.cc and .h: a time as the program stores and prints it. The calendar of the system is an
-- interface.
pub mod Format
pub mod Moment
mod Tests
use mu_muduo.Common.{
  ℕ, ◌+◌, ◌-◌, ◌*◌, ◌<◌, ◌≤◌, List, [], ◌∷◌, ◌++◌, length, take, replicate, decimal,
}

-- The fields of `tm` that are printed, each already as a number that is not negative.
pub record Tm : Type 0 where
  pub year : ℕ
  pub month : ℕ
  pub day : ℕ
  pub hour : ℕ
  pub minute : ℕ
  pub second : ℕ

-- localtime(3), with `year` for `tm_year + 1900` and `month` for `tm_mon + 1`, for the times of the
-- years 1000 to 9999 (`IsCommon`). A second can be a leap second.
pub record Calendar : Type 1 where
  pub localtime : ℕ → Tm
  pub IsCommon : ℕ → Type 0
  pub year_bounds :
      (t : ℕ) → IsCommon t → (1000 ≤ (localtime t).year) × ((localtime t).year < 10000)
  pub field_bounds :
      (t : ℕ)
      → ((localtime t).month ≤ 12)
        × ((localtime t).day ≤ 31)
        × ((localtime t).hour < 24)
        × ((localtime t).minute < 60)
        × ((localtime t).second ≤ 60)

pub record Timestamp : Type 0 where
  pub micro_second_since_epoch : ℕ

-- `time(NULL)` is the argument: it counts seconds.
unfoldable pub now : ℕ → Timestamp
now time = record { micro_second_since_epoch = time }

-- `%4d` and `%02d`: at least so many characters, filled up in front.
pub padded : ℕ → ℕ → ℕ → List ℕ
padded fill width n = replicate (width - length (decimal n)) fill ++ decimal n

-- The format "%4d/%02d/%02d %02d:%02d:%02d".
pub format_tm : Tm → List ℕ
unfolding padded
format_tm t =
    padded 32 4 t.year
    ++ 47
      ∷ (padded 48 2 t.month
          ++ 47
            ∷ (padded 48 2 t.day
                ++ 32
                  ∷ (padded 48 2 t.hour
                      ++ 58 ∷ (padded 48 2 t.minute ++ 58 ∷ padded 48 2 t.second))))

-- `snprintf` keeps 127 characters.
pub to_string : Calendar → Timestamp → List ℕ
unfolding format_tm
to_string cal t = take 127 (format_tm (cal.localtime t.micro_second_since_epoch))
