-- ===== src/Handles/Commands.antt =====
-- Commands that give the firmware open handles only.
use uefilinux.Base.{ℕ, ◌≡◌, true, List, inl, inr, ℤ}
use uefilinux.Efi.{Firmware}
use uefilinux.Machine.{
  Machine, Memory, Run, ok, fault, spin, Command, efi, efi_void, put_mem, ◌>>=◌,
}
use uefilinux.Machine.After.{After}
use uefilinux.Machine.Preserves.{Preserves}
use uefilinux.Handles.{Steps, Handles, IsOwned}
use uefilinux.Wide.{bstr_to_wstr}
use uefilinux.Fd.{find_fd, Found, found, missing}
use uefilinux.Fd.Table.{IsOpen-or_IsClosed, find_fd-IsOpen, find_fd-IsClosed, closed_error}

module _ {W : Type 0} {fw : Firmware W} (d : Handles fw) where
  -- `IsOwned`, and this handle is open.
  pub record Using (h : ℕ) (s : Machine W) : Type 0 where
    pub owned : IsOwned d s
    pub handle_open : d.is_open h s.world ≡ true

  -- A property that such a step of the firmware, and a change of the memory or of the name buffer,
  -- keep.
  abbrev pub IsStable : (Machine W → Type 0) → Type 0
  IsStable P =
      (s : Machine W) (w : W) (m : Memory) (fres : List ℕ)
      → Steps d.is_open d.clean s.world w
      → P s
      → P (record s { world = w; mem = m; fres = fres })

  pub IsOwned-IsStable : IsStable (IsOwned d)
  IsOwned-IsStable s w m fres st o = record {
    table = o.table;
    first_free = o.first_free;
    held = λ i h e ne. (st.still_open h (o.held i h e ne).0, (o.held i h e ne).1);
    volume_open = st.still_open s.volume o.volume_open;
    clean = st.still_clean o.clean;
  }

  pub Using-IsStable : (h : ℕ) → IsStable (Using h)
  Using-IsStable h s w m fres st u = record {
    owned = IsOwned-IsStable s w m fres st u.owned;
    handle_open = st.still_open h u.handle_open;
  }

  no_step : (w : W) → Steps d.is_open d.clean w w
  no_step w = record { still_open = λ h e. e; still_clean = λ e. e }

  module _ (P : Machine W → Type 0) (stable : IsStable P) where
    pub Preserves-efi :
        {A : Type 0} (f : W → A × W)
        → ((w : W) → Steps d.is_open d.clean w (f w).1)
        → Preserves P (efi f)
    Preserves-efi f st = record {
      after = λ s p. stable s (f s.world).1 s.mem s.fres (st s.world) p;
    }

    pub Preserves-efi_void :
        (f : W → W) → ((w : W) → Steps d.is_open d.clean w (f w)) → Preserves P (efi_void f)
    Preserves-efi_void f st = record {
      after = λ s p. stable s (f s.world) s.mem s.fres (st s.world) p;
    }

    pub Preserves-put_mem : (m : Memory) → Preserves P (put_mem m)
    Preserves-put_mem m = record { after = λ s p. stable s s.world m s.fres (no_step s.world) p }

    pub Preserves-bstr_to_wstr : (input : ℕ) → Preserves P (bstr_to_wstr input)
    unfolding bstr_to_wstr
    Preserves-bstr_to_wstr input = record {
      after = λ s p. stable s s.world s.mem _ (no_step s.world) p;
    }

  pub Preserves-use :
      {A : Type 0} (h : ℕ) (f : W → A × W)
      → ((w : W) → d.is_open h w ≡ true → Steps d.is_open d.clean w (f w).1)
      → Preserves (Using h) (efi f)
  Preserves-use h f st = record {
    after = λ s u. Using-IsStable h s (f s.world).1 s.mem s.fres (st s.world u.handle_open) u;
  }

  pub After-IsOwned : (h : ℕ) {A : Type 0} (r : Run W A) → After (Using h) r → After (IsOwned d) r
  After-IsOwned h (ok a t) u = u.owned
  After-IsOwned h fault u = tt
  After-IsOwned h (spin t) u = u.owned

  -- A command on a descriptor: what follows the checks may use the handle that they find.
  pub Preserves-find_fd :
      {A : Type 0} (fd : ℤ) (k : Found → Command W A)
      → ((e : ℤ) → Preserves (IsOwned d) (k (missing e)))
      → ((i handle : ℕ) → Preserves (Using handle) (k (found i handle)))
      → Preserves (IsOwned d) (find_fd fd >>= k)
  Preserves-find_fd fd k refuse use_it = record {
    after = λ s o. elim (IsOpen-or_IsClosed s.fds fd o.table) [
      | inl (i, handle, p) ↦ rw (find_fd-IsOpen s i handle p) (
          After-IsOwned handle (k (found i handle) s) (
            (use_it i handle).after s
              (record { owned = o; handle_open = (o.held i handle p.holds p.not_null).0 })))
      | inr c ↦ rw (find_fd-IsClosed s fd o.table c) ((refuse (closed_error fd)).after s o)
    ];
  }
