-- ===== src/Machine/Preserves.antt =====
-- Commands that preserve a property of the state.
use uefilinux.Base.{Bool, true, false, if◌then◌else◌}
use uefilinux.Machine.{Machine, Run, ok, fault, spin, Command, pure, get, undefined, forever, ◌>>=◌}
use uefilinux.Machine.After.{After, After-and_then}
use uefilinux.Machine.Keeps.{SameTable, Keeps}

pub record Preserves {W A : Type 0} (P : Machine W → Type 0) (c : Command W A) : Type 0 where
  pub after : (s : Machine W) → P s → After P (c s)

module _ {W : Type 0} (P : Machine W → Type 0) where
  pub Preserves-pure : {A : Type 0} (a : A) → Preserves P (pure {W = W} a)
  Preserves-pure a = record { after = λ s h. h }

  pub Preserves-get : Preserves P (get {W = W})
  Preserves-get = record { after = λ s h. h }

  pub Preserves-undefined : {A : Type 0} → Preserves P (undefined {W = W} {A = A})
  Preserves-undefined = record { after = λ s h. tt }

  pub Preserves-forever : {A : Type 0} → Preserves P (forever {W = W} {A = A})
  Preserves-forever = record { after = λ s h. h }

  pub Preserves->>= :
      {A B : Type 0} (m : Command W A) (k : A → Command W B)
      → Preserves P m
      → ((a : A) → Preserves P (k a))
      → Preserves P (m >>= k)
  Preserves->>= m k hm hk = record {
    after = λ s h. After-and_then P (m s) k (hm.after s h) λ a t g. (hk a).after t g;
  }

  pub Preserves-if :
      {A : Type 0} (b : Bool) (x y : Command W A)
      → Preserves P x
      → Preserves P y
      → Preserves P (if b then x else y)
  Preserves-if true x y hx hy = hx
  Preserves-if false x y hx hy = hy

  -- A property of what `SameTable` compares is preserved by a command that keeps it.
  pub Preserves-Keeps :
      {A : Type 0} (c : Command W A)
      → ((s t : Machine W) → SameTable s t → P s → P t)
      → Keeps c
      → Preserves P c
  Preserves-Keeps {A} c stable k = record { after = λ s h. go s h (c s) (k.after s) }
    where
      go : (s : Machine W) → P s → (r : Run W A) → After (SameTable s) r → After P r
      go s h (ok a t) e = stable s t e h
      go s h fault e = tt
      go s h (spin t) e = stable s t e h
