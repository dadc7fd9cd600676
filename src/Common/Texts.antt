-- ===== src/Common/Texts.antt =====
-- Texts as lists of character codes: equality as a test, and the part behind a common front.
use Prim.Native.Nat.{ℕ}
use mathlib.Core.Path.{◌≡◌, refl, ap, ap₂, subst}
use mathlib.Core.Logic.{inl, inr}
use mathlib.Core.Bool.{Bool, true, false, ◌&&◌}
use mathlib.Core.List.{List, [], ◌∷◌, ◌++◌}
use native.Mathlib.Omega.{arith}
use mu_muduo.Common.Tests.{◌==◌, ==_iff, Bool-cases}
use mu_muduo.Common.Dictionary.{Eq}

pub text_beq : List ℕ → List ℕ → Bool
text_beq [] [] = true
text_beq [] (y ∷ ys) = false
text_beq (x ∷ xs) [] = false
text_beq (x ∷ xs) (y ∷ ys) = (x == y) && text_beq xs ys

pub text_beq_refl : (xs : List ℕ) → text_beq xs xs ≡ true
unfolding text_beq
text_beq_refl [] = refl
text_beq_refl (x ∷ xs) = rw ((==_iff x x).1 refl, text_beq_refl xs) refl

pub text_beq_eq : (xs ys : List ℕ) → text_beq xs ys ≡ true → xs ≡ ys
unfolding text_beq
text_beq_eq [] [] h = refl
text_beq_eq [] (y ∷ ys) h = cc
text_beq_eq (x ∷ xs) [] h = cc
text_beq_eq (x ∷ xs) (y ∷ ys) h = elim (Bool-cases (x == y)) [
  | inl same ↦ ap₂ (λ z zs. z ∷ zs) ((==_iff x y).0 same) (text_beq_eq xs ys (rest same h))
  | inr other ↦ cc (h, other)
]
  where
    rest : {b c : Bool} → b ≡ true → (b && c) ≡ true → c ≡ true
    rest e h = ground arith

instance abbrev pub text_eq : Eq (List ℕ)
text_eq = record {
  beq = text_beq;
  beq_iff =
      λ xs ys. (text_beq_eq xs ys, λ e. subst (λ zs. text_beq xs zs ≡ true) e (text_beq_refl xs));
}

pub append_cancel : (xs : List ℕ) {ys zs : List ℕ} → xs ++ ys ≡ xs ++ zs → ys ≡ zs
append_cancel [] e = e
append_cancel (x ∷ xs) e = append_cancel xs (tail_eq e)
  where
    tail : List ℕ → List ℕ
    tail [] = []
    tail (y ∷ ys) = ys

    tail_eq : {a b : ℕ} {us vs : List ℕ} → a ∷ us ≡ b ∷ vs → us ≡ vs
    tail_eq e = ap tail e
