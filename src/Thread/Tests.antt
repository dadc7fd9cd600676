-- ===== src/Thread/Tests.antt =====
-- Names and numbers of threads.
use mu_muduo.Common.{ℕ, ◌≡◌, refl, [], ◌∷◌, arith, decimal, true, false}
use mu_muduo.Thread.{default_name, tid, destroy_thread, int32_text}
use mu_muduo.Thread.Names.{make_thread-names}

-- "Thread7"
seventh : default_name 7 ≡ 84 ∷ 104 ∷ 114 ∷ 101 ∷ 97 ∷ 100 ∷ 55 ∷ []
unfolding default_name decimal
seventh = refl

-- "-1"
minus_one : int32_text 4294967295 ≡ 45 ∷ 49 ∷ []
unfolding int32_text decimal
minus_one = refl

make_thread-names_example : ◌≡◌ {A = ℕ} 3 3
make_thread-names_example = make_thread-names 3 3 (omega arith) (omega arith) refl

cached : tid 9 5 ≡ (5, 5)
unfolding tid
cached = refl

not_cached : tid 9 0 ≡ (9, 9)
unfolding tid
not_cached = refl

abandoned :
    (destroy_thread
      (record { started = true; joined = false; tid = 4; name = []; detached = false })).detached
    ≡ true
unfolding destroy_thread
abandoned = refl
