-- ===== src/Thread/Names.antt =====
-- The names of threads that were given none.
use mu_muduo.Common.{
  ℕ, ◌+◌, ◌-◌, ◌%◌, ◌^◌, ◌<◌, ◌≤◌, ◌≡◌, refl, sym, ap, ◌∙◌, [], ◌∷◌, length, ltb, decimal,
  length-decimal, decimal_inj, append_cancel, take_all, arith, lt→ltb, text_eq, Bool-cases, inl,
  inr, tests, text_beq_refl,
}
use mu_muduo.Thread.{int32_text, default_name, set_default_name, count_up, make_thread}

-- An `int32_t` prints in eleven characters at most.
length-int32_text : (n : ℕ) → n < 2 ^ 32 → length (int32_text n) ≤ 11
unfolding int32_text
length-int32_text n h = elim (Bool-cases (ltb n (2 ^ 31))) [
  | inl small ↦ rw small (omega (tests, length-decimal 9 n (omega (tests, small))))
  | inr large ↦ rw large (omega (tests, length-decimal 9 (2 ^ 32 - n) (omega (tests, large))))
]

-- `snprintf` cuts no name.
pub default_name_whole :
    (n : ℕ) → n < 2 ^ 32 → default_name n ≡ 84 ∷ 104 ∷ 114 ∷ 101 ∷ 97 ∷ 100 ∷ int32_text n
unfolding default_name
default_name_whole n h =
    take_all 31 (84 ∷ 104 ∷ 114 ∷ 101 ∷ 97 ∷ 100 ∷ int32_text n)
      (omega (arith, length-int32_text n h))

positive_text : (n : ℕ) → n < 2 ^ 31 → int32_text n ≡ decimal n
unfolding int32_text
positive_text n h = rw (lt→ltb n (2 ^ 31) h) refl

made_name : (n : ℕ) → n + 1 < 2 ^ 31 → (make_thread n []).0.name ≡ default_name (n + 1)
unfolding make_thread set_default_name count_up
made_name n h =
    let plain : (n + 1) % 2 ^ 32 ≡ n + 1 = omega arith in
    rw (text_beq_refl []) (ap default_name plain)

-- As long as fewer than 2 ^ 31 threads are made, two that are made without a name have the same name
-- only if they have the same number: no number wraps, and no name is cut at the end of its buffer.
pub make_thread-names :
    (m n : ℕ)
    → m + 1 < 2 ^ 31
    → n + 1 < 2 ^ 31
    → (make_thread m []).0.name ≡ (make_thread n []).0.name
    → m ≡ n
make_thread-names m n h k e =
    let whole =
      sym (default_name_whole (m + 1) (omega arith))
      ∙ sym (made_name m h)
      ∙ e
      ∙ made_name n k
      ∙ default_name_whole (n + 1) (omega arith) in
    let same : decimal (m + 1) ≡ decimal (n + 1) =
      sym (positive_text (m + 1) h)
      ∙ append_cancel (84 ∷ 104 ∷ 114 ∷ 101 ∷ 97 ∷ 100 ∷ []) whole
      ∙ positive_text (n + 1) k in
    omega (arith, decimal_inj (m + 1) (n + 1) same)
