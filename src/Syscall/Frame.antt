-- ===== src/Syscall/Frame.antt =====
-- The calls that leave the descriptor table alone: all but `fd_close`, `fd_dup` and `fd_dup2`.
pub mod Transfers
use uefilinux.Base.{
  ℕ, zero, suc, ◌+◌, ◌*◌, ◌%◌, ◌^◌, Option, none, some, List, ℤ, pos, negsuc, neg, to_int, to_u32,
  to_u64, length, arith,
}
use uefilinux.Efi.{Firmware, FileInfo, ResetType, reset_warm}
use uefilinux.Machine.{Command, pure, load_fd}
use uefilinux.Machine.Keeps.{
  SameTable, Keeps, Keeps-pure, Keeps-efi, Keeps-get, Keeps-put_mem, Keeps-undefined, Keeps->>=,
  Keeps-if,
}
use uefilinux.Errno.{emfile, efi_status_to_errno}
use uefilinux.Machine.After.{After}
use uefilinux.Stat.{fd_efi_stat, change_stat, fd_fstat, fd_stat}
use uefilinux.Directory.{
  enter, record_length, entry_count, sizeof_dirent, read_entries, fd_getdents64,
}
use uefilinux.Time.{time_cstd_time, time_gettimeofday, time_sleep}
use uefilinux.Process.Texts.{restart2_called}
use uefilinux.Process.{
  proc_exit, proc_abort, proc_kill, print, reset, restart_with, reboot_command, power_reboot,
  fd_select, mem_mmap, mem_munmap,
}
use uefilinux.Fd.{
  fd_real_find_free, Found, found, missing, find_fd, check_fd, fd_fsync, fd_lseek, seek_set,
  seek_cur, seek_end,
}
use uefilinux.File.{position_or_truncate, open_at, open_found, fd_open}
use uefilinux.Wide.{bstr_to_wstr}
use uefilinux.Wide.Copy.{length-wide_buffer}

module _ {W : Type 0} where
  pub Keeps-load_fd : (i : ℕ) → Keeps (load_fd {W = W} i)
  unfolding load_fd
  Keeps-load_fd i = record { after = λ s. ground arith }

  pub Keeps-find_fd : (fd : ℤ) → Keeps (find_fd {W = W} fd)
  unfolding find_fd check_fd load_fd
  Keeps-find_fd fd = record { after = λ s. ground arith }

  Keeps-bstr_to_wstr : (input : ℕ) → Keeps (bstr_to_wstr {W = W} input)
  unfolding bstr_to_wstr
  Keeps-bstr_to_wstr input = record {
    after = λ s. ground (arith, length-wide_buffer s.mem.bytes input s.fres);
  }

module _ {W : Type 0} (fw : Firmware W) where
  pub Keeps-fsync : (fd : ℤ) → Keeps (fd_fsync fw fd)
  unfolding fd_fsync
  Keeps-fsync fd = record { after = λ s. ground (arith, (Keeps-find_fd fd).after s) }

  pub Keeps-lseek : (fd : ℤ) (offset : ℕ) (whence : ℤ) → Keeps (fd_lseek fw fd offset whence)
  unfolding fd_lseek seek_set seek_cur seek_end
  Keeps-lseek fd offset whence = record { after = λ s. ground (arith, (Keeps-find_fd fd).after s) }

  Keeps-open_at : (n pathname flags : ℕ) → Keeps (open_at fw n pathname flags)
  unfolding open_at position_or_truncate
  Keeps-open_at n pathname flags = record {
    after = λ s. ground (arith, (Keeps-bstr_to_wstr pathname).after s);
  }

  pub Keeps-fd_open : (pathname flags : ℕ) → Keeps (fd_open fw pathname flags)
  unfolding fd_open open_found
  Keeps-fd_open pathname flags = record {
    after = λ s.
        elim (fd_real_find_free s.fds)
          as (λ r. After (SameTable s) (open_found fw r pathname flags s)) [
            | negsuc n ↦ (Keeps-pure (neg emfile)).after s
            | pos n ↦ (Keeps-open_at n pathname flags).after s
          ];
  }

  Keeps-fd_efi_stat : (handle buf : ℕ) → Keeps (fd_efi_stat fw handle buf)
  unfolding fd_efi_stat change_stat
  Keeps-fd_efi_stat handle buf = record { after = λ s. ground arith }

  pub Keeps-fd_fstat : (fd : ℤ) (buf : ℕ) → Keeps (fd_fstat fw fd buf)
  unfolding fd_fstat fd_efi_stat change_stat
  Keeps-fd_fstat fd buf = record { after = λ s. ground (arith, (Keeps-find_fd fd).after s) }

  pub Keeps-fd_stat : (path buf : ℕ) → Keeps (fd_stat fw path buf)
  unfolding fd_stat fd_efi_stat change_stat
  Keeps-fd_stat path buf = record { after = λ s. ground (arith, (Keeps-bstr_to_wstr path).after s) }

  Keeps-enter :
      (next : ℕ → Command W ℤ) (dire fres : ℕ) (read : Option FileInfo)
      → ((sum : ℕ) → Keeps (next sum))
      → Keeps (enter next dire fres read)
  unfolding enter
  Keeps-enter next dire fres none h = Keeps-undefined
  Keeps-enter next dire fres (some info) h = Keeps->>= _ _ Keeps-get λ s.
      Keeps->>= _ _ (Keeps-put_mem _)
        λ u. h ((fres + record_length (length info.file_name)) % 2 ^ 64)

  Keeps-read_entries : (handle left dire fres : ℕ) → Keeps (read_entries fw handle left dire fres)
  unfolding read_entries
  Keeps-read_entries handle zero dire fres = Keeps-pure (to_int fres)
  Keeps-read_entries handle (suc left) dire fres =
      Keeps->>= _ _ (Keeps-efi (fw.read_directory handle)) λ x.
        Keeps-if (fw.is_error x.0) _ _ (Keeps-pure (neg (efi_status_to_errno fw x.0))) (
          Keeps-enter (λ sum. read_entries fw handle left dire sum) dire fres x.1
            λ sum. Keeps-read_entries handle left dire sum)

  pub Keeps-fd_getdents64 : (fd : ℤ) (dirp : ℕ) (count : ℤ) → Keeps (fd_getdents64 fw fd dirp count)
  unfolding fd_getdents64
  Keeps-fd_getdents64 fd dirp count = Keeps->>= _ _ (Keeps-find_fd fd) λ f. entries f
    where
      entries :
          (f : Found)
          → Keeps (elim f [
            | missing e ↦ pure e
            | found i handle ↦
                let n = entry_count count in
                read_entries fw handle (to_u32 n) ((dirp + sizeof_dirent * to_u64 n) % 2 ^ 64) 0
          ])
      entries (missing e) = Keeps-pure e
      entries (found i handle) = Keeps-read_entries handle _ _ 0

  pub Keeps-time_gettimeofday : (tv : ℕ) → Keeps (time_gettimeofday fw tv)
  unfolding time_gettimeofday time_cstd_time
  Keeps-time_gettimeofday tv = record { after = λ s. ground arith }

  Keeps-time_sleep : (duration : ℕ) → Keeps (time_sleep fw duration)
  unfolding time_sleep
  Keeps-time_sleep duration = record { after = λ s. ground arith }

  pub Keeps-fd_select : (nfds : ℤ) (a b c d : ℕ) → Keeps (fd_select fw nfds a b c d)
  unfolding fd_select time_sleep
  Keeps-fd_select nfds a b c d = record { after = λ s. ground arith }

  pub Keeps-mem_mmap : (length : ℕ) (fd : ℤ) → Keeps (mem_mmap fw length fd)
  unfolding mem_mmap
  Keeps-mem_mmap length fd = record { after = λ s. ground arith }

  pub Keeps-mem_munmap : (addr : ℕ) → Keeps (mem_munmap fw addr)
  unfolding mem_munmap
  Keeps-mem_munmap addr = record { after = λ s. ground arith }

  pub Keeps-proc_exit : (status : ℤ) → Keeps (proc_exit fw status)
  unfolding proc_exit
  Keeps-proc_exit status = record { after = λ s. ground arith }

  pub Keeps-proc_kill : (pid sig : ℤ) → Keeps (proc_kill fw pid sig)
  unfolding proc_kill proc_abort
  Keeps-proc_kill pid sig = record { after = λ s. ground arith }

  Keeps-print : (text : List ℕ) → Keeps (print fw text)
  unfolding print
  Keeps-print text = record { after = λ s. ground arith }

  Keeps-reset : (kind : ResetType) (size : ℕ) (text : List ℕ) → Keeps (reset fw kind size text)
  unfolding reset
  Keeps-reset kind size text = record { after = λ s. ground arith }

  Keeps-restart_with : (arg : ℕ) → Keeps (restart_with fw arg)
  unfolding restart_with
  Keeps-restart_with arg = Keeps->>= _ _ (Keeps-print _) λ u.
      Keeps->>= _ _ (Keeps-bstr_to_wstr arg) λ text.
        Keeps->>= _ _ (Keeps-print _)
          λ u. Keeps->>= _ _ (Keeps-print _) λ u. Keeps-reset reset_warm 33 restart2_called

  Keeps-reboot_command : (cmd arg : ℕ) → Keeps (reboot_command fw cmd arg)
  unfolding reboot_command reset print
  Keeps-reboot_command cmd arg = record {
    after = λ s. ground (arith, (Keeps-restart_with arg).after s);
  }

  pub Keeps-power_reboot :
      (magic1 magic2 cmd : ℤ) (arg : ℕ) → Keeps (power_reboot fw magic1 magic2 cmd arg)
  unfolding power_reboot
  Keeps-power_reboot magic1 magic2 cmd arg = record {
    after = λ s. ground (arith, (Keeps-reboot_command (to_u32 cmd) arg).after s);
  }
