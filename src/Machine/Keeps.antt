-- ===== src/Machine/Keeps.antt =====
-- Commands that leave the descriptor table and the other global variables alone, but for the bytes
-- of the name buffer.
use uefilinux.Base.{◌≡◌, refl, ap, ◌∙◌, length, Bool, true, false, if◌then◌else◌}
use uefilinux.Machine.{
  Machine, Memory, Run, ok, fault, spin, Command, pure, efi, efi_void, undefined, forever, get,
  put_mem, and_then, ◌>>=◌,
}
use uefilinux.Machine.After.{After}

pub record SameTable {W : Type 0} (s s' : Machine W) : Type 0 where
  pub fds : s'.fds ≡ s.fds
  pub image : s'.image ≡ s.image
  pub volume : s'.volume ≡ s.volume
  pub fres : length s'.fres ≡ length s.fres

pub record Keeps {W A : Type 0} (c : Command W A) : Type 0 where
  pub after : (s : Machine W) → After (SameTable s) (c s)

module _ {W : Type 0} where
  same_refl : (s : Machine W) → SameTable s s
  same_refl s = record { fds = refl; image = refl; volume = refl; fres = refl }

  same_trans : {s t u : Machine W} → SameTable s t → SameTable t u → SameTable s u
  same_trans a b = record {
    fds = b.fds ∙ a.fds;
    image = b.image ∙ a.image;
    volume = b.volume ∙ a.volume;
    fres = b.fres ∙ a.fres;
  }

  pub After-SameTable :
      {A : Type 0} (s t : Machine W) (r : Run W A)
      → SameTable s t
      → After (SameTable t) r
      → After (SameTable s) r
  After-SameTable s t (ok a u) e h = same_trans e h
  After-SameTable s t fault e h = tt
  After-SameTable s t (spin u) e h = same_trans e h

  pub Keeps-pure : {A : Type 0} (a : A) → Keeps (pure {W = W} a)
  Keeps-pure a = record { after = λ s. same_refl s }

  same :
      (s s' : Machine W)
      → s'.fds ≡ s.fds
      → s'.image ≡ s.image
      → s'.volume ≡ s.volume
      → s'.fres ≡ s.fres
      → SameTable s s'
  same s s' a b c d = record { fds = a; image = b; volume = c; fres = ap length d }

  pub Keeps-efi : {A : Type 0} (f : W → A × W) → Keeps (efi f)
  Keeps-efi f = record {
    after = λ s. same s (record s { world = (f s.world).1 }) refl refl refl refl;
  }

  pub Keeps-efi_void : (f : W → W) → Keeps (efi_void f)
  Keeps-efi_void f = record {
    after = λ s. same s (record s { world = f s.world }) refl refl refl refl;
  }

  pub Keeps-get : Keeps (get {W = W})
  Keeps-get = record { after = λ s. same_refl s }

  pub Keeps-put_mem : (m : Memory) → Keeps (put_mem {W = W} m)
  Keeps-put_mem m = record { after = λ s. same s (record s { mem = m }) refl refl refl refl }

  pub Keeps-undefined : {A : Type 0} → Keeps (undefined {W = W} {A = A})
  Keeps-undefined = record { after = λ s. tt }

  pub Keeps-forever : {A : Type 0} → Keeps (forever {W = W} {A = A})
  Keeps-forever = record { after = λ s. same_refl s }

  pub Keeps->>= :
      {A B : Type 0} (m : Command W A) (k : A → Command W B)
      → Keeps m
      → ((a : A) → Keeps (k a))
      → Keeps (m >>= k)
  Keeps->>= {A} {B} m k hm hk = record { after = λ s. go s (m s) (hm.after s) }
    where
      go :
          (s : Machine W) (r : Run W A) → After (SameTable s) r → After (SameTable s) (and_then r k)
      go s (ok a t) e = After-SameTable s t (k a t) e ((hk a).after t)
      go s fault e = tt
      go s (spin t) e = e

  pub Keeps-if :
      {A : Type 0} (b : Bool) (x y : Command W A) → Keeps x → Keeps y → Keeps (if b then x else y)
  Keeps-if true x y hx hy = hx
  Keeps-if false x y hx hy = hy
