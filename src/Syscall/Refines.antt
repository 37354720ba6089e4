-- ===== src/Syscall/Refines.antt =====
-- The system calls as steps on the map from descriptors to handles.
use uefilinux.Base.{
  ℕ, ◌+◌, ◌%◌, ◌^◌, ◌≡◌, ◌≢◌, ◌⊎◌, inl, inr, refl, ap, ◌∙◌, none, some, Option-cases, ◌==◌, List,
  length, length-set, get_elem?, ℤ, pos, negsuc, neg, to_int, to_u64,
}
use uefilinux.Efi.{Firmware}
use uefilinux.Errno.{ebadf, emfile}
use uefilinux.Machine.{Machine, Run, ok, fault, spin, Command, pure, and_then, store_fd}
use uefilinux.Machine.After.{After, Returns}
use uefilinux.Machine.Keeps.{SameTable, Keeps, Keeps-pure, Keeps->>=}
use uefilinux.Machine.Preserves.{
  Preserves, Preserves-pure, Preserves->>=, Preserves-if, Preserves-Keeps,
}
use uefilinux.Fd.{virtual_fd_base, assign_fd, dup2_assign, fd_close, fd_dup, fd_dup2}
use uefilinux.Fd.Search.{FirstTaken}
use uefilinux.Fd.Table.{IsTable, closed_error}
use uefilinux.Fd.Total.{close_total}
use uefilinux.Fd.View.{OpenFiles, Removed, view, view-OtherSlots, close_refines}
use uefilinux.Fd.Share.{Assigned, view-set, dup_refines}
use uefilinux.Syscall.{Call, Arguments, arguments, run, call_of, int_result, syscall_emu_x86_64}
use uefilinux.Syscall.Frame.Transfers.{Keeps-fd_read, Keeps-fd_write}
use uefilinux.Syscall.Frame.{
  Keeps-load_fd, Keeps-fd_open, Keeps-fd_stat, Keeps-fd_fstat, Keeps-lseek, Keeps-mem_mmap,
  Keeps-mem_munmap, Keeps-fd_select, Keeps-fsync, Keeps-proc_exit, Keeps-proc_kill,
  Keeps-time_gettimeofday, Keeps-power_reboot, Keeps-fd_getdents64,
}
use uefilinux.Syscall.Table.{dup2_by_parts}

-- Two maps that agree.
abbrev pub Agree : OpenFiles → OpenFiles → Type 0
Agree before after = (d : ℤ) → after d ≡ before d

-- The descriptor that `fd_dup2` returns for a new one.
abbrev pub above : ℤ → ℤ
above (pos n) = pos (n + virtual_fd_base)
above (negsuc n) = negsuc n

-- The two maps agree but for these two descriptors.
abbrev pub AgreeBut : ℤ → ℤ → OpenFiles → OpenFiles → Type 0
AgreeBut a b before after = (d : ℤ) → d ≢ a → d ≢ b → after d ≡ before d

-- What a call may do to the map. A close removes its descriptor, a `dup` of one that stands for a
-- handle lets one descriptor stand for it, a `dup2` changes the new descriptor and the one that it
-- returns, and no other call changes anything.
abbrev pub Step : Call → Arguments → OpenFiles → OpenFiles → Type 0
Step Call.close (arguments a0 a1 a2 a3 a4 a5) before after = Removed (to_int a0) before after
Step Call.dup (arguments a0 a1 a2 a3 a4 a5) before after =
    ((d : ℤ) × (handle : ℕ) × (before (to_int a0) ≡ some handle) × Assigned d handle before after)
    ⊎ Agree before after
Step Call.dup2 (arguments a0 a1 a2 a3 a4 a5) before after =
    AgreeBut (to_int a1) (above (to_int a1)) before after
Step _ _ before after = Agree before after

module _ {W : Type 0} (fw : Firmware W) where
  Agree-Keeps :
      {A : Type 0} (c : Command W A) (s : Machine W)
      → Keeps c
      → After (λ t. Agree (view s.fds) (view t.fds)) (c s)
  Agree-Keeps {A} c s k = agreed (c s) (k.after s)
    where
      agreed :
          (r : Run W A) → After (SameTable s) r → After (λ t. Agree (view s.fds) (view t.fds)) r
      agreed (ok a t) e = λ d. ap (λ (fds : List ℕ). view fds d) e.fds
      agreed fault e = tt
      agreed (spin t) e = λ d. ap (λ (fds : List ℕ). view fds d) e.fds

  Returns-After :
      (P : ℤ → Machine W → Type 0) (Q : Machine W → Type 0) (r : Run W ℤ)
      → Returns P r
      → ((a : ℤ) (t : Machine W) → P a t → Q t)
      → After Q r
  Returns-After P Q (ok a t) h f = f a t h
  Returns-After P Q fault h f = tt
  Returns-After P Q (spin t) h f = absurd h

  -- A table of 16 slots whose map agrees with another but for two descriptors.
  abbrev Near : OpenFiles → ℤ → Machine W → Type 0
  Near before new_fd t = IsTable t.fds × AgreeBut new_fd (above new_fd) before (view t.fds)

  Near-stable :
      (before : OpenFiles) (new_fd : ℤ) (s t : Machine W)
      → SameTable s t
      → Near before new_fd s
      → Near before new_fd t
  Near-stable before new_fd s t e (table, but) =
      (ap length e.fds ∙ table, λ d a b. ap (λ (fds : List ℕ). view fds d) e.fds ∙ but d a b)

  Near-close :
      (before : OpenFiles) (new_fd : ℤ) → Preserves (Near before new_fd) (fd_close fw new_fd)
  Near-close before new_fd = record {
    after = λ s (table, but).
        Returns-After _ (Near before new_fd) (fd_close fw new_fd s) (close_total fw s new_fd table)
          λ r t (other, closed, mem).
            (other.size ∙ table, λ d a b. view-OtherSlots new_fd d s.fds t.fds other a ∙ but d a b);
  }

  Near-assign :
      (before : OpenFiles) (new_fd : ℤ) (handle : ℕ)
      → Preserves (Near before new_fd) (assign_fd fw new_fd handle)
  unfolding assign_fd store_fd
  Near-assign before (negsuc n) handle = Preserves-pure (Near before (negsuc n)) (neg emfile)
  Near-assign before (pos n) handle = record { after = λ s h. stored s h }
    where
      stored :
          (s : Machine W)
          → Near before (pos n) s
          → After (Near before (pos n)) (assign_fd fw (pos n) handle s)
      stored s (table, but) = elim (Option-cases (get_elem? s.fds n)) [
        | inl out ↦ rw (assign_fd, store_fd, out) tt
        | inr (h, held) ↦
            rw (assign_fd, store_fd, held)
              (length-set s.fds n handle ∙ table, λ d a b. view-set s.fds n handle d b ∙ but d a b)
      ]

  Near-dup2_assign :
      (before : OpenFiles) (new_fd : ℤ) (i : ℕ)
      → Preserves (Near before new_fd) (dup2_assign fw i new_fd)
  unfolding dup2_assign
  Near-dup2_assign before new_fd i =
      Preserves->>= (Near before new_fd) _ _
        (Preserves-Keeps (Near before new_fd) _ (Near-stable before new_fd) (Keeps-load_fd i))
        λ h.
          Preserves-if (Near before new_fd) (h == 0) _ _
            (Preserves-pure (Near before new_fd) (neg ebadf)) (Near-assign before new_fd h)

  dup2_near :
      (old_fd new_fd : ℤ) (s : Machine W)
      → IsTable s.fds
      → After
          (λ t. AgreeBut new_fd (above new_fd) (view s.fds) (view t.fds))
          (fd_dup2 fw old_fd new_fd s)
  dup2_near old_fd new_fd s t = second (fd_dup2 fw old_fd new_fd s) (
      (dup2_by_parts fw (Near (view s.fds) new_fd) new_fd (Near-stable (view s.fds) new_fd)
          (Near-close (view s.fds) new_fd) (Near-dup2_assign (view s.fds) new_fd) old_fd).after
        s (t, λ d a b. refl))
    where
      second :
          (r : Run W ℤ)
          → After (Near (view s.fds) new_fd) r
          → After (λ t. AgreeBut new_fd (above new_fd) (view s.fds) (view t.fds)) r
      second (ok a t) h = h.1
      second fault h = tt
      second (spin t) h = h.1

  -- The conversion of the result changes no state.
  word : (Q : Machine W → Type 0) (r : Run W ℤ) → After Q r → After Q (and_then r int_result)
  word Q (ok a t) h = h
  word Q fault h = tt
  word Q (spin t) h = h

  kept_call :
      (c : Command W ℤ) (s : Machine W)
      → Keeps c
      → After (λ t. Agree (view s.fds) (view t.fds)) (and_then (c s) int_result)
  kept_call c s k = Agree-Keeps _ s (Keeps->>= c int_result k λ r. Keeps-pure (to_u64 r))

  duplicated :
      (fd : ℤ) (s : Machine W) (r : ℤ) (t : Machine W)
      → (((handle k : ℕ) × (view s.fds fd ≡ some handle)
            × FirstTaken s.fds k
            × (r ≡ pos (k + virtual_fd_base))
            × Assigned r handle (view s.fds) (view t.fds))
          ⊎ ((view s.fds fd ≡ none) × (r ≡ closed_error fd) × (t.fds ≡ s.fds)))
      → ((d : ℤ) × (handle : ℕ) × (view s.fds fd ≡ some handle)
          × Assigned d handle (view s.fds) (view t.fds))
        ⊎ Agree (view s.fds) (view t.fds)
  duplicated fd s r t (inl (handle, k, held, first, number, assigned)) =
      inl (r, handle, held, assigned)
  duplicated fd s r t (inr (free, error, same)) = inr λ d. ap (λ (fds : List ℕ). view fds d) same

  run-Step :
      (c : Call) (a : Arguments) (s : Machine W)
      → IsTable s.fds
      → After (λ t. Step c a (view s.fds) (view t.fds)) (run fw c a s)
  unfolding run
  run-Step Call.read (arguments a0 a1 a2 a3 a4 a5) s t =
      kept_call _ s (Keeps-fd_read fw (to_int a0) a1 a2)
  run-Step Call.write (arguments a0 a1 a2 a3 a4 a5) s t =
      kept_call _ s (Keeps-fd_write fw (to_int a0) a1 a2)
  run-Step Call.open_file (arguments a0 a1 a2 a3 a4 a5) s t =
      kept_call _ s (Keeps-fd_open fw a0 (a1 % 2 ^ 32))
  run-Step Call.stat (arguments a0 a1 a2 a3 a4 a5) s t = kept_call _ s (Keeps-fd_stat fw a0 a1)
  run-Step Call.fstat (arguments a0 a1 a2 a3 a4 a5) s t =
      kept_call _ s (Keeps-fd_fstat fw (to_int a0) a1)
  run-Step Call.lstat (arguments a0 a1 a2 a3 a4 a5) s t = kept_call _ s (Keeps-fd_stat fw a0 a1)
  run-Step Call.lseek (arguments a0 a1 a2 a3 a4 a5) s t =
      kept_call _ s (Keeps-lseek fw (to_int a0) a1 (to_int a2))
  run-Step Call.munmap (arguments a0 a1 a2 a3 a4 a5) s t = kept_call _ s (Keeps-mem_munmap fw a0)
  run-Step Call.select (arguments a0 a1 a2 a3 a4 a5) s t =
      kept_call _ s (Keeps-fd_select fw (to_int a0) a1 a2 a3 a4)
  run-Step Call.fsync (arguments a0 a1 a2 a3 a4 a5) s t = kept_call _ s (Keeps-fsync fw (to_int a0))
  run-Step Call.fdatasync (arguments a0 a1 a2 a3 a4 a5) s t =
      kept_call _ s (Keeps-fsync fw (to_int a0))
  run-Step Call.kill (arguments a0 a1 a2 a3 a4 a5) s t =
      kept_call _ s (Keeps-proc_kill fw (to_int a0) (to_int a1))
  run-Step Call.gettimeofday (arguments a0 a1 a2 a3 a4 a5) s t =
      kept_call _ s (Keeps-time_gettimeofday fw a0)
  run-Step Call.reboot (arguments a0 a1 a2 a3 a4 a5) s t =
      kept_call _ s (Keeps-power_reboot fw (to_int a0) (to_int a1) (to_int a2) a3)
  run-Step Call.getdents64 (arguments a0 a1 a2 a3 a4 a5) s t =
      kept_call _ s (Keeps-fd_getdents64 fw (to_int a0) a1 (to_int a2))
  run-Step Call.mmap (arguments a0 a1 a2 a3 a4 a5) s t =
      Agree-Keeps _ s (Keeps-mem_mmap fw a1 (to_int a4))
  run-Step Call.exit (arguments a0 a1 a2 a3 a4 a5) s t =
      Agree-Keeps _ s (Keeps->>= _ (λ u. pure 0) (Keeps-proc_exit fw (to_int a0)) λ u. Keeps-pure 0)
  run-Step Call.close (arguments a0 a1 a2 a3 a4 a5) s t = word _ (fd_close fw (to_int a0) s) (
      Returns-After _ _ (fd_close fw (to_int a0) s) (close_refines fw (to_int a0) s t)
        λ r u (removed, mem). removed)
  run-Step Call.dup (arguments a0 a1 a2 a3 a4 a5) s t = word _ (fd_dup fw (to_int a0) s) (
      Returns-After _ _ (fd_dup fw (to_int a0) s) (dup_refines fw (to_int a0) s t)
        λ r u (world, mem, what). duplicated (to_int a0) s r u what)
  run-Step Call.dup2 (arguments a0 a1 a2 a3 a4 a5) s t =
      word _ (fd_dup2 fw (to_int a0) (to_int a1) s) (dup2_near (to_int a0) (to_int a1) s t)
  run-Step Call.mprotect (arguments a0 a1 a2 a3 a4 a5) s t = λ d. refl
  run-Step Call.sched_yield (arguments a0 a1 a2 a3 a4 a5) s t = λ d. refl
  run-Step Call.getpid (arguments a0 a1 a2 a3 a4 a5) s t = λ d. refl
  run-Step Call.getuid (arguments a0 a1 a2 a3 a4 a5) s t = λ d. refl
  run-Step Call.getgid (arguments a0 a1 a2 a3 a4 a5) s t = λ d. refl
  run-Step Call.setuid (arguments a0 a1 a2 a3 a4 a5) s t = λ d. refl
  run-Step Call.setgid (arguments a0 a1 a2 a3 a4 a5) s t = λ d. refl
  run-Step Call.geteuid (arguments a0 a1 a2 a3 a4 a5) s t = λ d. refl
  run-Step Call.getegid (arguments a0 a1 a2 a3 a4 a5) s t = λ d. refl
  run-Step Call.getppid (arguments a0 a1 a2 a3 a4 a5) s t = λ d. refl
  run-Step Call.gettid (arguments a0 a1 a2 a3 a4 a5) s t = λ d. refl
  run-Step Call.unknown a s t = λ d. refl

  -- On a table of 16 slots, every system call that does not run into undefined behaviour is a step
  -- on the map from descriptors to handles that the table stands for: a close removes its
  -- descriptor, a dup lets one descriptor stand for the old one's handle or changes nothing, a dup2
  -- changes at most the new descriptor and the one 4 above it, and no other call changes anything.
  pub syscall_refines :
      (number : ℕ) (a : Arguments) (s : Machine W)
      → IsTable s.fds
      → After
          (λ t. Step (call_of number) a (view s.fds) (view t.fds))
          (syscall_emu_x86_64 fw number a s)
  unfolding syscall_emu_x86_64
  syscall_refines number a s t = run-Step (call_of number) a s t
