-- ===== src/Process/Bags.antt =====
-- Lists of numbers whose order does not matter.
use mathlib.Core.Quot
use mathlib.Core.Quot.{Quot, Quot-set}
use native.Mathlib.Nat.{ℕ_set}
use uefilinux.Base.{ℕ, ◌≡◌, ap, suc, List, [], ◌∷◌, ◌==◌, if◌then◌else◌, arith}

-- How often a number is in a list.
abbrev pub times : ℕ → List ℕ → ℕ
times a [] = 0
times a (x ∷ xs) = if x == a then suc (times a xs) else times a xs

abbrev pub Rearranged : List ℕ → List ℕ → Type 0
Rearranged xs ys = (a : ℕ) → times a xs ≡ times a ys

abbrev pub Bag : Type 0
Bag = Quot Rearranged

abbrev pub bag : List ℕ → Bag
bag = Quot.mk

pub Rearranged-cons : (p : ℕ) (xs ys : List ℕ) → Rearranged xs ys → Rearranged (p ∷ xs) (p ∷ ys)
Rearranged-cons p xs ys h a = ground (arith, h a)

unfoldable pub add : ℕ → Bag → Bag
add p = Quot.lift Quot-set (λ xs. bag (p ∷ xs)) (λ xs ys h. Quot.sound (Rearranged-cons p xs ys h))

how_often : ℕ → Bag → ℕ
how_often a = Quot.lift ℕ_set (times a) (λ xs ys h. h a)

bag-exact : (xs ys : List ℕ) → bag xs ≡ bag ys → Rearranged xs ys
unfolding how_often
bag-exact xs ys e a = ap (how_often a) e

Rearranged-cancel : (p : ℕ) (xs ys : List ℕ) → Rearranged (p ∷ xs) (p ∷ ys) → Rearranged xs ys
Rearranged-cancel p xs ys h a = ground (arith, h a)

-- Adding the same number loses nothing.
pub add-cancel : (p : ℕ) (x y : Bag) → add p x ≡ add p y → x ≡ y
unfolding add
add-cancel p =
    Quot.ind (λ x. hlevel Quot-set)
      λ xs.
        Quot.ind (λ y. hlevel Quot-set)
          λ ys e. Quot.sound (Rearranged-cancel p xs ys (bag-exact (p ∷ xs) (p ∷ ys) e))
