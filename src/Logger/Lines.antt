-- ===== src/Logger/Lines.antt =====
-- The line of a log.
use mu_muduo.Common.{
  ℕ, ◌+◌, ◌≤◌, ◌≡◌, refl, sym, ◌∙◌, List, [], ◌∷◌, ◌++◌, length, take, length-append, length-take,
  arith,
}
use mu_muduo.Timestamp.{Calendar, now, to_string}
use mu_muduo.Timestamp.Format.{to_string_lem}
use mu_muduo.Logger.{
  LogLevel, info, error, fatal, debug, level_value, Logger, prefix, log, log_macro, set_log_level,
}

same_prefix : (a b : LogLevel) → prefix (level_value a) ≡ prefix (level_value b)
unfolding prefix
same_prefix a b = level a ∙ sym (level b)
  where
    level : (a : LogLevel) → prefix (level_value a) ≡ 91 ∷ 73 ∷ 78 ∷ 70 ∷ 79 ∷ 93 ∷ []
    level info = refl
    level error = refl
    level fatal = refl
    level debug = refl

-- Two macros of any levels print the same text: the line does not tell the level.
pub log_macro-levels :
    (a b : LogLevel) (cal : Calendar) (time : ℕ) (text : List ℕ) (l : Logger)
    → (log_macro a cal time text l).cout ≡ (log_macro b cal time text l).cout
unfolding log_macro log set_log_level
log_macro-levels a b cal time text l = rw (same_prefix a b) refl

length-prefix : (a : LogLevel) → length (prefix (level_value a)) ≡ 6
unfolding prefix
length-prefix info = refl
length-prefix error = refl
length-prefix fatal = refl
length-prefix debug = refl

-- In the years 1000 to 9999 a macro prints one line of at most 1052 characters, however long its
-- text is.
pub log_macro_bound :
    (a : LogLevel) (cal : Calendar) (time : ℕ) (text : List ℕ) (l : Logger)
    → cal.IsCommon time
    → length (log_macro a cal time text l).cout ≤ length l.cout + 1052
unfolding log_macro log set_log_level now
log_macro_bound a cal time text l h =
    let stamp = to_string cal (now time) in
    let msg = take 1023 text in
    omega (
      arith,
      length-append l.cout (prefix (level_value a) ++ (stamp ++ (32 ∷ 58 ∷ 32 ∷ (msg ++ 10 ∷ [])))),
      length-append (prefix (level_value a)) (stamp ++ (32 ∷ 58 ∷ 32 ∷ (msg ++ 10 ∷ []))),
      length-append stamp (32 ∷ 58 ∷ 32 ∷ (msg ++ 10 ∷ [])),
      length-append msg (10 ∷ []),
      length-prefix a,
      length-take 1023 text,
      (to_string_lem cal (now time) h).0,
    )
