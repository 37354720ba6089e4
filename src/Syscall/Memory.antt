-- ===== src/Syscall/Memory.antt =====
-- Which system calls write to the caller's memory.
use mathlib.Core.Bool.{true≢false}
use uefilinux.Base.{
  ℕ, ◌+◌, ◌-◌, ◌%◌, ◌^◌, ◌≡◌, refl, Bool, true, false, ltb, ◌==◌, ◌||◌, is_neg, Option, none, some,
  List, ℤ, pos, negsuc, neg, to_int, to_u64, arith,
}
use uefilinux.Efi.{Firmware}
use uefilinux.Errno.{ebadf, emfile, eperm, enosys}
use uefilinux.Machine.{Machine, Memory, Command, load_fd, store_fd, ◌>>=◌}
use uefilinux.Machine.After.{After}
use uefilinux.Machine.Preserves.{Preserves, Preserves-pure, Preserves->>=, Preserves-if}
use uefilinux.Fd.{
  Checked, slot, refused, check_fd, Found, found, missing, find_fd, fd_real_reset,
  fd_real_find_free, fd_close, fd_fsync, assign_fd, dup_found, fd_dup, peek_fd, dup2_assign,
  dup2_checked, fd_dup2, fd_lseek, seek_set, seek_cur, seek_end,
}
use uefilinux.Wide.{bstr_to_wstr}
use uefilinux.File.{position_or_truncate, open_at, open_found, fd_open, write_file}
use uefilinux.Console.{show, console_write, fd_write, console_text}
use uefilinux.Time.{time_sleep}
use uefilinux.Stat.{emu_uid, emu_gid}
use uefilinux.Process.{
  emu_pid, proc_exit, proc_abort, proc_kill, print, reset, restart_with, reboot_command,
  power_reboot, fd_select, mem_mmap, mem_munmap,
}
use uefilinux.Syscall.{Call, Arguments, arguments, int_result, run, call_of, syscall_emu_x86_64}

-- The calls that are handed an address to write to, and do.
abbrev pub writes_memory : Call → Bool
writes_memory Call.read = true
writes_memory Call.stat = true
writes_memory Call.fstat = true
writes_memory Call.lstat = true
writes_memory Call.gettimeofday = true
writes_memory Call.getdents64 = true
writes_memory _ = false

module _ {W : Type 0} (fw : Firmware W) (m : Memory) where
  abbrev Has : Machine W → Type 0
  Has s = s.mem ≡ m

  find-Has : (fd : ℤ) → Preserves Has (find_fd {W = W} fd)
  unfolding find_fd check_fd load_fd
  find-Has fd = record { after = λ s h. ground arith }

  fsync-Has : (fd : ℤ) → Preserves Has (fd_fsync fw fd)
  unfolding fd_fsync
  fsync-Has fd = record { after = λ s h. ground (arith, (find-Has fd).after s h) }

  lseek-Has : (fd : ℤ) (offset : ℕ) (whence : ℤ) → Preserves Has (fd_lseek fw fd offset whence)
  unfolding fd_lseek seek_set seek_cur seek_end
  lseek-Has fd offset whence = record { after = λ s h. ground (arith, (find-Has fd).after s h) }

  close-Has : (fd : ℤ) → Preserves Has (fd_close fw fd)
  unfolding fd_close fd_real_reset store_fd
  close-Has fd = record { after = λ s h. ground (arith, (find-Has fd).after s h) }

  assign-Has : (r : ℤ) (handle : ℕ) → Preserves Has (assign_fd fw r handle)
  unfolding assign_fd store_fd
  assign-Has r handle = record { after = λ s h. ground arith }

  dup-Has : (fd : ℤ) → Preserves Has (fd_dup fw fd)
  unfolding fd_dup dup_found
  dup-Has fd = Preserves->>= Has _ _ (find-Has fd) next
    where
      next : (f : Found) → Preserves Has (dup_found fw f)
      next (missing e) = Preserves-pure Has e
      next (found i handle) = record {
        after = λ s h. (assign-Has (fd_real_find_free s.fds) handle).after s h;
      }

  load-Has : (i : ℕ) → Preserves Has (load_fd {W = W} i)
  unfolding load_fd
  load-Has i = record { after = λ s h. ground arith }

  peek-Has : (fd : ℤ) → Preserves Has (peek_fd fw fd)
  unfolding peek_fd load_fd
  peek-Has fd = record { after = λ s h. ground arith }

  dup2_assign-Has : (i : ℕ) (new_fd : ℤ) → Preserves Has (dup2_assign fw i new_fd)
  unfolding dup2_assign
  dup2_assign-Has i new_fd =
      Preserves->>= Has _ _ (load-Has i)
        λ h. Preserves-if Has (h == 0) _ _ (Preserves-pure Has (neg ebadf)) (assign-Has new_fd h)

  dup2-Has : (old_fd new_fd : ℤ) → Preserves Has (fd_dup2 fw old_fd new_fd)
  unfolding fd_dup2 dup2_checked
  dup2-Has old_fd new_fd = parts (check_fd old_fd)
    where
      parts : (c : Checked) → Preserves Has (dup2_checked fw c new_fd)
      parts (refused e) = Preserves-pure Has e
      parts (slot i) = Preserves->>= Has _ _ (peek-Has new_fd) λ taken.
          Preserves-if Has (taken == 0) _ _ (dup2_assign-Has i new_fd) (
            Preserves->>= Has _ _ (close-Has new_fd) λ res.
              Preserves-if Has (is_neg res) _ _ (Preserves-pure Has res) (dup2_assign-Has i new_fd))

  open_at-Has : (n pathname flags : ℕ) → Preserves Has (open_at fw n pathname flags)
  unfolding open_at bstr_to_wstr position_or_truncate
  open_at-Has n pathname flags = record { after = λ s h. ground arith }

  open-Has : (pathname flags : ℕ) → Preserves Has (fd_open fw pathname flags)
  unfolding fd_open open_found
  open-Has pathname flags = record { after = λ s h. (at (fd_real_find_free s.fds)).after s h }
    where
      at : (r : ℤ) → Preserves Has (open_found fw r pathname flags)
      at (negsuc n) = Preserves-pure Has (neg emfile)
      at (pos n) = open_at-Has n pathname flags

  write_file-Has : (fd : ℤ) (buf count : ℕ) → Preserves Has (write_file fw fd buf count)
  unfolding write_file
  write_file-Has fd buf count = record { after = λ s h. ground (arith, (find-Has fd).after s h) }

  show-Has : (text : Option (List ℕ)) (count : ℕ) → Preserves Has (show fw text count)
  unfolding show
  show-Has none count = record { after = λ s h. tt }
  show-Has (some text) count = record { after = λ s h. ground arith }

  console_write-Has : (buf count : ℕ) → Preserves Has (console_write fw buf count)
  unfolding console_write
  console_write-Has buf count = record {
    after = λ s h. (show-Has (console_text (λ it. s.mem.bytes (buf + it)) count) count).after s h;
  }

  write-Has : (fd : ℤ) (buf count : ℕ) → Preserves Has (fd_write fw fd buf count)
  unfolding fd_write
  write-Has (negsuc n) buf count = write_file-Has (negsuc n) buf count
  write-Has (pos n) buf count = Preserves-if Has (ltb 16 n) _ _ (Preserves-pure Has (neg ebadf)) (
      Preserves-if Has (n == 1 || n == 2) _ _ (console_write-Has buf count)
        (write_file-Has (pos n) buf count))

  kill-Has : (pid sig : ℤ) → Preserves Has (proc_kill fw pid sig)
  unfolding proc_kill proc_abort
  kill-Has pid sig = record { after = λ s h. ground arith }

  reboot-Has :
      (magic1 magic2 cmd : ℤ) (arg : ℕ) → Preserves Has (power_reboot fw magic1 magic2 cmd arg)
  unfolding power_reboot reboot_command print reset restart_with bstr_to_wstr
  reboot-Has magic1 magic2 cmd arg = record { after = λ s h. ground arith }

  select-Has :
      (nfds : ℤ) (readfds writefds exceptfds timeout : ℕ)
      → Preserves Has (fd_select fw nfds readfds writefds exceptfds timeout)
  unfolding fd_select time_sleep
  select-Has nfds readfds writefds exceptfds timeout = record { after = λ s h. ground arith }

  mmap-Has : (length : ℕ) (fd : ℤ) → Preserves Has (mem_mmap fw length fd)
  unfolding mem_mmap
  mmap-Has length (negsuc n) = record { after = λ s h. ground arith }
  mmap-Has length (pos n) = record { after = λ s h. ground arith }

  result : (c : Command W ℤ) → Preserves Has c → Preserves Has (c >>= int_result)
  result c h = Preserves->>= Has c int_result h λ r. Preserves-pure Has (to_u64 r)

  run-Has : (c : Call) (a : Arguments) → writes_memory c ≡ false → Preserves Has (run fw c a)
  unfolding run proc_exit mem_munmap
  run-Has Call.write (arguments a0 a1 a2 a3 a4 a5) h = result _ (write-Has (to_int a0) a1 a2)
  run-Has Call.open_file (arguments a0 a1 a2 a3 a4 a5) h = result _ (open-Has a0 (a1 % 2 ^ 32))
  run-Has Call.close (arguments a0 a1 a2 a3 a4 a5) h = result _ (close-Has (to_int a0))
  run-Has Call.lseek (arguments a0 a1 a2 a3 a4 a5) h =
      result _ (lseek-Has (to_int a0) a1 (to_int a2))
  run-Has Call.select (arguments a0 a1 a2 a3 a4 a5) h =
      result _ (select-Has (to_int a0) a1 a2 a3 a4)
  run-Has Call.dup (arguments a0 a1 a2 a3 a4 a5) h = result _ (dup-Has (to_int a0))
  run-Has Call.dup2 (arguments a0 a1 a2 a3 a4 a5) h = result _ (dup2-Has (to_int a0) (to_int a1))
  run-Has Call.fsync (arguments a0 a1 a2 a3 a4 a5) h = result _ (fsync-Has (to_int a0))
  run-Has Call.fdatasync (arguments a0 a1 a2 a3 a4 a5) h = result _ (fsync-Has (to_int a0))
  run-Has Call.kill (arguments a0 a1 a2 a3 a4 a5) h = result _ (kill-Has (to_int a0) (to_int a1))
  run-Has Call.reboot (arguments a0 a1 a2 a3 a4 a5) h =
      result _ (reboot-Has (to_int a0) (to_int a1) (to_int a2) a3)
  run-Has Call.mmap (arguments a0 a1 a2 a3 a4 a5) h = mmap-Has a1 (to_int a4)
  run-Has Call.munmap (arguments a0 a1 a2 a3 a4 a5) h = record { after = λ s e. e }
  run-Has Call.exit (arguments a0 a1 a2 a3 a4 a5) h = record { after = λ s e. e }
  run-Has Call.mprotect (arguments a0 a1 a2 a3 a4 a5) h = Preserves-pure Has 0
  run-Has Call.sched_yield (arguments a0 a1 a2 a3 a4 a5) h = Preserves-pure Has 0
  run-Has Call.getpid (arguments a0 a1 a2 a3 a4 a5) h = Preserves-pure Has emu_pid
  run-Has Call.getuid (arguments a0 a1 a2 a3 a4 a5) h = Preserves-pure Has emu_uid
  run-Has Call.getgid (arguments a0 a1 a2 a3 a4 a5) h = Preserves-pure Has emu_gid
  run-Has Call.setuid (arguments a0 a1 a2 a3 a4 a5) h = Preserves-pure Has (to_u64 (neg eperm))
  run-Has Call.setgid (arguments a0 a1 a2 a3 a4 a5) h = Preserves-pure Has (to_u64 (neg eperm))
  run-Has Call.geteuid (arguments a0 a1 a2 a3 a4 a5) h = Preserves-pure Has emu_uid
  run-Has Call.getegid (arguments a0 a1 a2 a3 a4 a5) h = Preserves-pure Has emu_gid
  run-Has Call.getppid (arguments a0 a1 a2 a3 a4 a5) h = Preserves-pure Has (emu_pid - 1)
  run-Has Call.gettid (arguments a0 a1 a2 a3 a4 a5) h = Preserves-pure Has emu_pid
  run-Has Call.unknown a h = Preserves-pure Has (to_u64 (neg enosys))
  run-Has Call.read a h = absurd (true≢false h)
  run-Has Call.stat a h = absurd (true≢false h)
  run-Has Call.fstat a h = absurd (true≢false h)
  run-Has Call.lstat a h = absurd (true≢false h)
  run-Has Call.gettimeofday a h = absurd (true≢false h)
  run-Has Call.getdents64 a h = absurd (true≢false h)

-- No system call but read, stat, fstat, lstat, gettimeofday and getdents64 changes the caller's
-- memory, unless it runs into undefined behaviour.
pub syscall_keeps_memory :
    {W : Type 0} (fw : Firmware W) (number : ℕ) (a : Arguments) (s : Machine W)
    → writes_memory (call_of number) ≡ false
    → After (λ t. t.mem ≡ s.mem) (syscall_emu_x86_64 fw number a s)
unfolding syscall_emu_x86_64
syscall_keeps_memory fw number a s h = (run-Has fw s.mem (call_of number) a h).after s refl
