-- ===== src/Logger.antt =====
-- Logger.cc and .h: the line that a logging macro prints. `std::cout` is the text printed so far.
pub mod Lines
mod Tests
use mu_muduo.Common.{
  ℕ, ◌+◌, Bool, true, false, List, [], ◌∷◌, ◌++◌, take, ◌==◌, if◌then◌else◌, Outcome, ok, err,
  exited,
}
use mu_muduo.Timestamp.{Calendar, Timestamp, now, to_string}

-- `LogLevel`, with its values.
pub data LogLevel : Type 0 where
  info error fatal debug : LogLevel

abbrev pub level_value : LogLevel → ℕ
level_value info = 0
level_value error = 1
level_value fatal = 2
level_value debug = 3

-- The one instance: `Loglevel_`, and what was printed.
pub record Logger : Type 0 where
  pub log_level : ℕ
  pub cout : List ℕ

unfoldable pub set_log_level : ℕ → Logger → Logger
set_log_level level l = record l { log_level = level }

-- "[INFO]" in each of the four cases of the switch.
pub prefix : ℕ → List ℕ
prefix level =
    if level == 0
    then 91 ∷ 73 ∷ 78 ∷ 70 ∷ 79 ∷ 93 ∷ []
    else if level == 1
    then 91 ∷ 73 ∷ 78 ∷ 70 ∷ 79 ∷ 93 ∷ []
    else if level == 2
    then 91 ∷ 73 ∷ 78 ∷ 70 ∷ 79 ∷ 93 ∷ []
    else if level == 3
    then 91 ∷ 73 ∷ 78 ∷ 70 ∷ 79 ∷ 93 ∷ []
    else []

-- `time` is what `time(NULL)` returns.
pub log : Calendar → ℕ → List ℕ → Logger → Logger
unfolding prefix
log cal time msg l = record l {
  cout =
      l.cout
      ++ (prefix l.log_level ++ (to_string cal (now time) ++ (32 ∷ 58 ∷ 32 ∷ (msg ++ 10 ∷ []))));
}

-- The macros: the level, a text that `snprintf` cuts to 1023 characters, and its line. LOG_FATAL ends
-- the program behind it.
pub log_macro : LogLevel → Calendar → ℕ → List ℕ → Logger → Logger
unfolding log set_log_level
log_macro level cal time text l =
    log cal time (take 1023 text) (set_log_level (level_value level) l)

pub log_info : Calendar → ℕ → List ℕ → Logger → Outcome Logger
unfolding log_macro
log_info cal time text l = ok (log_macro info cal time text l)

pub log_error : Calendar → ℕ → List ℕ → Logger → Outcome Logger
unfolding log_macro
log_error cal time text l = ok (log_macro error cal time text l)

pub log_fatal : Calendar → ℕ → List ℕ → Logger → Outcome Logger × List ℕ
unfolding log_macro
log_fatal cal time text l = (err exited, (log_macro fatal cal time text l).cout)

-- `silent` tells whether MUDEUBG is defined.
pub log_debug : Bool → Calendar → ℕ → List ℕ → Logger → Outcome Logger
unfolding log_macro
log_debug silent cal time text l = if silent then ok l else ok (log_macro debug cal time text l)
