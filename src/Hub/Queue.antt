-- ===== src/Hub/Queue.antt =====
-- The objects whose `connectDestroyed` is queued.
use mu_muduo.Common.{
  ℕ, ◌≡◌, refl, sym, ap, ◌∙◌, Bool, true, false, ◌||◌, List, [], ◌∷◌, ◌++◌, append-nil, none, some,
  Dict, lookup, insert, nat_eq, lookup-insert, ◌==◌, ==_iff, Bool-cases, inl, inr, if◌then◌else◌,
}
use mu_muduo.Hub.{Stored}

unfoldable pub mem : ℕ → List ℕ → Bool
mem o [] = false
mem o (x ∷ xs) = (x == o) || mem o xs

-- What one event adds to the queue.
abbrev pub queued : Bool → ℕ → List ℕ
queued d o = if d then o ∷ [] else []

abbrev pub Found : ℕ → Dict ℕ Stored → Type 0
Found o m = (c : Stored) × (lookup o m ≡ some c)

abbrev pub AllFound : List ℕ → Dict ℕ Stored → Type 0
AllFound [] m = Unit {0}
AllFound (o ∷ os) m = Found o m × AllFound os m

or_false : (b : Bool) → (b || false) ≡ b
or_false true = refl
or_false false = refl

pub Found-insert : (a o : ℕ) (c : Stored) (m : Dict ℕ Stored) → Found o m → Found o (insert a c m)
Found-insert a o c m (d, l) = elim (Bool-cases (a == o)) [
  | inl e ↦ (c, lookup-insert a o c m ∙ rw e refl)
  | inr e ↦ (d, lookup-insert a o c m ∙ rw e l)
]

pub AllFound-insert :
    (os : List ℕ) (a : ℕ) (c : Stored) (m : Dict ℕ Stored)
    → AllFound os m
    → AllFound os (insert a c m)
AllFound-insert [] a c m all = tt
AllFound-insert (o ∷ os) a c m (f, all) = (Found-insert a o c m f, AllFound-insert os a c m all)

AllFound-snoc :
    (os : List ℕ) (a : ℕ) (m : Dict ℕ Stored)
    → AllFound os m
    → Found a m
    → AllFound (os ++ a ∷ []) m
AllFound-snoc [] a m all f = (f, tt)
AllFound-snoc (o ∷ os) a m (g, all) f = (g, AllFound-snoc os a m all f)

mem-snoc : (o a : ℕ) (os : List ℕ) → mem o (os ++ a ∷ []) ≡ (mem o os || (a == o))
unfolding mem
mem-snoc o a [] = or_false (a == o)
mem-snoc o a (x ∷ os) = ap (λ b. (x == o) || b) (mem-snoc o a os) ∙ sym (or_assoc (x == o))
  where
    or_assoc : (b : Bool) → ((b || mem o os) || (a == o)) ≡ (b || (mem o os || (a == o)))
    or_assoc true = refl
    or_assoc false = refl

pub AllFound-queued :
    (os : List ℕ) (a : ℕ) (d : Bool) (m : Dict ℕ Stored)
    → AllFound os m
    → Found a m
    → AllFound (os ++ queued d a) m
AllFound-queued os a true m all f = AllFound-snoc os a m all f
AllFound-queued os a false m all f = rw (append-nil os) all

pub mem-queued_here :
    (o a : ℕ) (d : Bool) (os : List ℕ)
    → (a == o) ≡ true
    → mem o (os ++ queued d a) ≡ (mem o os || d)
mem-queued_here o a true os e = mem-snoc o a os ∙ rw e refl
mem-queued_here o a false os e = rw (append-nil os) (sym (or_false (mem o os)))

pub mem-queued_there :
    (o a : ℕ) (d : Bool) (os : List ℕ) → (a == o) ≡ false → mem o (os ++ queued d a) ≡ mem o os
mem-queued_there o a true os e = mem-snoc o a os ∙ rw e (or_false (mem o os))
mem-queued_there o a false os e = rw (append-nil os) refl

-- An object that is not there is not queued.
pub mem_absent :
    (o : ℕ) (os : List ℕ) (m : Dict ℕ Stored) → lookup o m ≡ none → AllFound os m → mem o os ≡ false
unfolding mem
mem_absent o [] m absent all = refl
mem_absent o (x ∷ os) m absent ((c, l), all) = elim (Bool-cases (x == o)) [
  | inl e ↦ absurd (none_some (sym absent ∙ ap (λ n. lookup n m) (sym ((==_iff x o).0 e)) ∙ l))
  | inr e ↦ rw e (mem_absent o os m absent all)
]
  where
    none_some : {x : Stored} → none ≡ some x → ⊥
    none_some h = cc
