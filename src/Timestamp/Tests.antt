-- ===== src/Timestamp/Tests.antt =====
-- The text of one moment.
use mu_muduo.Common.{◌≡◌, refl, [], ◌∷◌, length, decimal}
use mu_muduo.Timestamp.{now, to_string}
use mu_muduo.Timestamp.Moment.{spring, one_moment}
use mu_muduo.Timestamp.Format.{read_tm, to_string_lem}

to_string_lem_example :
    (length (to_string one_moment (now 5)) ≡ 19) × (read_tm (to_string one_moment (now 5)) ≡ spring)
unfolding now
to_string_lem_example = to_string_lem one_moment (now 5) refl

-- "2023/03/09 07:05:41"
printed :
    to_string one_moment (now 5)
    ≡ 50 ∷ 48 ∷ 50 ∷ 51 ∷ 47 ∷ 48 ∷ 51 ∷ 47 ∷ 48 ∷ 57 ∷ 32 ∷ 48 ∷ 55 ∷ 58 ∷ 48 ∷ 53 ∷ 58 ∷ 52 ∷ 49
      ∷ []
unfolding to_string decimal
printed = refl
