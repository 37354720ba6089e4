-- ===== src/Machine/After.antt =====
-- What holds of the state that a command leaves behind.
use uefilinux.Base.{◌≡◌, ◌≢◌, refl}
use uefilinux.Machine.{Machine, Run, ok, fault, spin, Command, and_then}

-- The command returns, and `P` holds of its result and final state.
abbrev pub Returns : {W A : Type 0} → (A → Machine W → Type 0) → Run W A → Type 0
Returns P (ok a s) = P a s
Returns P fault = ⊥
Returns P (spin s) = ⊥

-- `P` holds of every state in which the command leaves the machine.
abbrev pub After : {W A : Type 0} → (Machine W → Type 0) → Run W A → Type 0
After P (ok a s) = P s
After P fault = Unit {0}
After P (spin s) = P s

-- `P` holds of the result, if there is one.
abbrev pub Results : {W A : Type 0} → (A → Type 0) → Run W A → Type 0
Results P (ok a s) = P a
Results P fault = Unit {0}
Results P (spin s) = Unit {0}

-- No undefined behaviour.
abbrev pub Defined : {W A : Type 0} → Run W A → Type 0
Defined r = r ≢ fault

module _ {W A B : Type 0} (P : Machine W → Type 0) where
  pub After-and_then :
      (r : Run W A) (k : A → Command W B)
      → After P r
      → ((a : A) (s : Machine W) → P s → After P (k a s))
      → After P (and_then r k)
  After-and_then (ok a s) k h next = next a s h
  After-and_then fault k h next = tt
  After-and_then (spin s) k h next = h

module _ {W A : Type 0} (P Q : A → Machine W → Type 0) where
  pub Returns-and : (r : Run W A) → Returns P r → Returns Q r → Returns (λ a s. P a s × Q a s) r
  Returns-and (ok a s) p q = (p, q)
  Returns-and fault p q = p
  Returns-and (spin s) p q = p

  pub Returns-mono :
      (r : Run W A) → Returns P r → ((a : A) (s : Machine W) → P a s → Q a s) → Returns Q r
  Returns-mono (ok a s) p f = f a s p
  Returns-mono fault p f = p
  Returns-mono (spin s) p f = p

-- Inversion of a sequence that returns.
pub and_then-eq-ok :
    {W A B : Type 0} (r : Run W A) (k : A → Command W B) {b : B} {t : Machine W}
    → and_then r k ≡ ok b t
    → (a : A) × (s : Machine W) × (r ≡ ok a s) × (k a s ≡ ok b t)
and_then-eq-ok (ok a s) k e = (a, s, refl, e)
and_then-eq-ok fault k e = cc e
and_then-eq-ok (spin s) k e = cc e

pub Returns-and_then :
    {W A B : Type 0} (P : A → Machine W → Type 0) (Q : B → Machine W → Type 0) (r : Run W A)
    (k : A → Command W B)
    → Returns P r
    → ((a : A) (s : Machine W) → P a s → Returns Q (k a s))
    → Returns Q (and_then r k)
Returns-and_then P Q (ok a s) k p next = next a s p
Returns-and_then P Q fault k p next = p
Returns-and_then P Q (spin s) k p next = p

module _ {W A B : Type 0} (P : B → Type 0) where
  pub Results-and_then :
      (r : Run W A) (k : A → Command W B)
      → ((a : A) (s : Machine W) → Results P (k a s))
      → Results P (and_then r k)
  Results-and_then (ok a s) k next = next a s
  Results-and_then fault k next = tt
  Results-and_then (spin s) k next = tt
