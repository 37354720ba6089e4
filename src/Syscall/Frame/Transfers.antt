-- ===== src/Syscall/Frame/Transfers.antt =====
-- `fd_read` and `fd_write` leave the descriptor table alone.
use uefilinux.Base.{
  ℕ, zero, suc, ◌+◌, ◌%◌, ◌^◌, Bool-cases, inl, inr, Option, none, some, ◌==◌, ◌&&◌, ◌||◌, ltb, ℤ,
  pos, negsuc, neg, arith,
}
use uefilinux.Efi.{Firmware}
use uefilinux.Machine.{Command}
use uefilinux.Machine.Keeps.{Keeps, Keeps-pure, Keeps-undefined, Keeps-forever, Keeps->>=, Keeps-if}
use uefilinux.Errno.{ebadf}
use uefilinux.Fd.{max_fds}
use uefilinux.File.{read_file, write_file}
use uefilinux.Console.{
  show, console_write, fd_write, wait_key, echo, key_char, store_key, take_key, read_keys, fd_read,
}
use uefilinux.Syscall.Frame.{Keeps-find_fd}

module _ {W : Type 0} (fw : Firmware W) where
  Keeps-read_file : (fd : ℤ) (buf count : ℕ) → Keeps (read_file fw fd buf count)
  unfolding read_file
  Keeps-read_file fd buf count = record { after = λ s. ground (arith, (Keeps-find_fd fd).after s) }

  Keeps-write_file : (fd : ℤ) (buf count : ℕ) → Keeps (write_file fw fd buf count)
  unfolding write_file
  Keeps-write_file fd buf count = record { after = λ s. ground (arith, (Keeps-find_fd fd).after s) }

  Keeps-console_write : (buf count : ℕ) → Keeps (console_write fw buf count)
  unfolding console_write show
  Keeps-console_write buf count = record { after = λ s. ground arith }

  pub Keeps-fd_write : (fd : ℤ) (buf count : ℕ) → Keeps (fd_write fw fd buf count)
  unfolding fd_write
  Keeps-fd_write (negsuc n) buf count = Keeps-write_file (negsuc n) buf count
  Keeps-fd_write (pos n) buf count = Keeps-if (ltb max_fds n) _ _ (Keeps-pure (neg ebadf)) (
      Keeps-if (n == 1 || n == 2) _ _ (Keeps-console_write buf count)
        (Keeps-write_file (pos n) buf count))

  Keeps-wait_key : Keeps (wait_key fw)
  unfolding wait_key
  Keeps-wait_key = record { after = λ s. ground arith }

  Keeps-echo : (key : ℕ) → Keeps (echo fw key)
  unfolding echo
  Keeps-echo key = record { after = λ s. ground arith }

  Keeps-store_key : (p c : ℕ) → Keeps (store_key fw p c)
  unfolding store_key
  Keeps-store_key p c = record { after = λ s. ground arith }

  Keeps-take_key :
      (next : ℕ → Command W ℤ) (buf it : ℕ) (key : Option ℕ)
      → ((i : ℕ) → Keeps (next i))
      → Keeps (take_key fw next buf it key)
  unfolding take_key
  Keeps-take_key next buf it none h = Keeps-undefined
  Keeps-take_key next buf it (some key) h =
      Keeps-if (it == 0 && key % 256 == 8) _ _ (h ((it + 1) % 2 ^ 32)) (
        Keeps->>= _ _ (Keeps-echo key) λ u.
          Keeps->>= _ _ (Keeps-store_key (buf + it) (key_char fw key)) λ u.
            Keeps-if (key_char fw key == b'\n') _ _ (Keeps-pure (pos ((it + 1) % 2 ^ 32)))
              (h ((it + 1) % 2 ^ 32)))

  Keeps-read_keys : (fuel buf count it : ℕ) → Keeps (read_keys fw fuel buf count it)
  unfolding read_keys
  Keeps-read_keys zero buf count it = Keeps-forever
  Keeps-read_keys (suc fuel) buf count it = elim (Bool-cases (it == count)) [
    | inl done ↦ rw (read_keys, done) (Keeps-pure (pos ((it + 1) % 2 ^ 32)))
    | inr more ↦
        rw (read_keys, more)
          (Keeps->>= _ _ Keeps-wait_key λ k.
            Keeps-take_key (λ i. read_keys fw fuel buf count i) buf it k
              λ i. Keeps-read_keys fuel buf count i)
  ]

  pub Keeps-fd_read : (fd : ℤ) (buf count : ℕ) → Keeps (fd_read fw fd buf count)
  unfolding fd_read
  Keeps-fd_read (negsuc n) buf count = Keeps-read_file (negsuc n) buf count
  Keeps-fd_read (pos n) buf count = Keeps-if (ltb max_fds n) _ _ (Keeps-pure (neg ebadf)) (
      Keeps-if (n == 0) _ _ (Keeps-read_keys (count + 1) buf count 0)
        (Keeps-read_file (pos n) buf count))
