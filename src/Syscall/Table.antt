-- ===== src/Syscall/Table.antt =====
-- The descriptor table under the system calls: one with no open descriptor stays so.
use uefilinux.Base.{
  ℕ, zero, suc, ◌-◌, ◌≡◌, ◌⊎◌, inl, inr, refl, sym, ap, subst, ◌∙◌, none, some, List, [], ◌∷◌,
  get_elem?, length, ltb, ◌==◌, is_neg, ℤ, pos, negsuc, arith,
}
use uefilinux.Efi.{Firmware}
use uefilinux.Machine.{Machine, Memory, ok, load_fd}
use uefilinux.Machine.After.{After}
use uefilinux.Machine.Keeps.{SameTable, Keeps, Keeps-undefined, Keeps-if}
use uefilinux.Machine.Preserves.{
  Preserves, Preserves-pure, Preserves->>=, Preserves-if, Preserves-Keeps,
}
use uefilinux.Fd.{
  virtual_fd_base, Checked, slot, refused, check_fd, peek_fd, dup_found, dup2_checked, dup2_assign,
  fd_close, fd_dup, fd_dup2,
}
use uefilinux.Fd.Search.{AllFree}
use uefilinux.Fd.Table.{IsTable, IsClosed, find_fd-IsClosed}
use uefilinux.Fd.Close.{close_closed}
use uefilinux.Syscall.{Arguments, syscall_emu_x86_64}
use uefilinux.Syscall.Frame.{Keeps-load_fd}
use uefilinux.Syscall.Invariant.{TableProperty, Preserves-syscall}

module _ {W : Type 0} (fw : Firmware W) where
  Keeps-peek_fd : (fd : ℤ) → Keeps (peek_fd fw fd)
  unfolding peek_fd
  Keeps-peek_fd (negsuc n) = Keeps-undefined
  Keeps-peek_fd (pos n) =
      Keeps-if (ltb n virtual_fd_base) _ _ Keeps-undefined (Keeps-load_fd (n - virtual_fd_base))

  -- `fd_dup2` preserves what its parts do.
  pub dup2_by_parts :
      (P : Machine W → Type 0) (new_fd : ℤ)
      → ((s t : Machine W) → SameTable s t → P s → P t)
      → Preserves P (fd_close fw new_fd)
      → ((i : ℕ) → Preserves P (dup2_assign fw i new_fd))
      → (old_fd : ℤ) → Preserves P (fd_dup2 fw old_fd new_fd)
  unfolding fd_dup2 dup2_checked
  dup2_by_parts P new_fd stable close_safe assign_safe old_fd = parts (check_fd old_fd)
    where
      parts : (c : Checked) → Preserves P (dup2_checked fw c new_fd)
      parts (refused e) = Preserves-pure P e
      parts (slot i) =
          Preserves->>= P _ _ (Preserves-Keeps P _ stable (Keeps-peek_fd new_fd)) λ taken.
            Preserves-if P (taken == 0) _ _ (assign_safe i) (
              Preserves->>= P _ _ close_safe
                λ res. Preserves-if P (is_neg res) _ _ (Preserves-pure P res) (assign_safe i))

-- No descriptor is open.
pub record IsEmpty {W : Type 0} (s : Machine W) : Type 0 where
  pub table : IsTable s.fds
  pub free : AllFree s.fds

AllFree-get_elem? : (fds : List ℕ) (i h : ℕ) → AllFree fds → get_elem? fds i ≡ some h → h ≡ 0
AllFree-get_elem? [] i h free e = cc e
AllFree-get_elem? (x ∷ fds) zero h free e = ground arith
AllFree-get_elem? (x ∷ fds) (suc i) h free e = AllFree-get_elem? fds i h free.1 e

AllFree-cases :
    (fds : List ℕ) (i : ℕ) → AllFree fds → (get_elem? fds i ≡ none) ⊎ (get_elem? fds i ≡ some 0)
AllFree-cases [] i free = inl refl
AllFree-cases (x ∷ fds) zero free = inr (ap some free.0)
AllFree-cases (x ∷ fds) (suc i) free = AllFree-cases fds i free.1

pub AllFree-IsClosed : (fds : List ℕ) (fd : ℤ) → AllFree fds → IsClosed fds fd
AllFree-IsClosed fds fd free i handle o = o.not_null (AllFree-get_elem? fds i handle free o.holds)

module _ {W : Type 0} (fw : Firmware W) where
  IsEmpty-stable : (s t : Machine W) → SameTable s t → IsEmpty s → IsEmpty t
  IsEmpty-stable s t e h = record {
    table = ap length e.fds ∙ h.table;
    free = subst AllFree (sym e.fds) h.free;
  }

  IsEmpty-close : (fd : ℤ) → Preserves IsEmpty (fd_close fw fd)
  IsEmpty-close fd = record {
    after = λ s h. rw (close_closed fw s fd h.table (AllFree-IsClosed s.fds fd h.free)).0 h;
  }

  IsEmpty-dup : (fd : ℤ) → Preserves IsEmpty (fd_dup fw fd)
  unfolding fd_dup dup_found
  IsEmpty-dup fd = record {
    after = λ s h. rw (find_fd-IsClosed s fd h.table (AllFree-IsClosed s.fds fd h.free)) h;
  }

  IsEmpty-dup2_assign : (i : ℕ) (new_fd : ℤ) → Preserves IsEmpty (dup2_assign fw i new_fd)
  unfolding dup2_assign load_fd
  IsEmpty-dup2_assign i new_fd = record {
    after = λ s h. ground (arith, AllFree-cases s.fds i h.free);
  }

  IsEmpty-property : TableProperty fw IsEmpty
  IsEmpty-property = record {
    stable = IsEmpty-stable;
    close_safe = IsEmpty-close;
    dup_safe = IsEmpty-dup;
    dup2_safe = λ old_fd new_fd.
        dup2_by_parts fw IsEmpty new_fd IsEmpty-stable (IsEmpty-close new_fd)
          (λ i. IsEmpty-dup2_assign i new_fd) old_fd;
  }

  -- From a table with no open descriptor no system call makes one.
  pub syscall-IsEmpty :
      (number : ℕ) (a : Arguments) (s : Machine W)
      → IsEmpty s
      → After IsEmpty (syscall_emu_x86_64 fw number a s)
  syscall-IsEmpty number a s h = (Preserves-syscall fw IsEmpty IsEmpty-property number a).after s h

-- What may happen to the machine: a system call that returns, and, between the calls, the program's
-- own writes to its memory and changes of the firmware's state.
pub data Reach {W : Type 0} (fw : Firmware W) (s : Machine W) : Machine W → Type 0 where
  here : Reach fw s s
  call :
      {t u : Machine W} {r : ℕ} (number : ℕ) (a : Arguments)
      → Reach fw s t
      → syscall_emu_x86_64 fw number a t ≡ ok r u
      → Reach fw s u
  program : {t : Machine W} (m : Memory) → Reach fw s t → Reach fw s (record t { mem = m })
  firmware : {t : Machine W} (w : W) → Reach fw s t → Reach fw s (record t { world = w })

-- From a table of 16 free slots, no sequence of system calls that return, of writes to memory and
-- of changes of the firmware's state leads to a table with a taken slot.
pub Reach-IsEmpty :
    {W : Type 0} (fw : Firmware W) {s t : Machine W} → IsEmpty s → Reach fw s t → IsEmpty t
Reach-IsEmpty fw h here = h
Reach-IsEmpty fw h (call {t} number a r e) =
    subst (After IsEmpty) e (syscall-IsEmpty fw number a t (Reach-IsEmpty fw h r))
Reach-IsEmpty fw h (program m r) =
    let e = Reach-IsEmpty fw h r in record { table = e.table; free = e.free }
Reach-IsEmpty fw h (firmware w r) =
    let e = Reach-IsEmpty fw h r in record { table = e.table; free = e.free }
