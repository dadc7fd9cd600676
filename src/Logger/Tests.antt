-- ===== src/Logger/Tests.antt =====
-- A line of each level.
use mu_muduo.Common.{◌≡◌, refl, ◌≤◌, ◌+◌, [], ◌∷◌, length, replicate}
use mu_muduo.Timestamp.Moment.{one_moment}
use mu_muduo.Logger.{Logger, info, fatal, error, log_macro}
use mu_muduo.Logger.Lines.{log_macro-levels, log_macro_bound}

abbrev quiet : Logger
quiet = record { log_level = 0; cout = [] }

log_macro-levels_example :
    (log_macro info one_moment 9 (72 ∷ 105 ∷ []) quiet).cout
    ≡ (log_macro fatal one_moment 9 (72 ∷ 105 ∷ []) quiet).cout
log_macro-levels_example = log_macro-levels info fatal one_moment 9 (72 ∷ 105 ∷ []) quiet

log_macro_bound_example :
    length (log_macro error one_moment 9 (replicate 2000 65) quiet).cout ≤ 0 + 1052
log_macro_bound_example = log_macro_bound error one_moment 9 (replicate 2000 65) quiet refl
