-- ===== src/UserImpl/Print.antt =====
-- `_putchar` and `_puts` over the emulated `write`.
use uefilinux.Base.{
  ℕ, ◌≡◌, refl, [], ◌∷◌, ◌==◌, if◌then◌else◌, Bool-cases, inl, inr, ◌<◌, ◌^◌, ℤ, pos, negsuc, neg,
  is_neg, to_int, to_u64, to_long, arith,
}
use uefilinux.Efi.{Firmware}
use uefilinux.Errno.{efi_status_to_errno}
use uefilinux.Machine.{Machine, Run, Command, ok, fault, spin, pure, update, and_then}
use uefilinux.File.{load_bytes}
use uefilinux.Console.{fd_write}
use uefilinux.Console.Convert.{translate}
use uefilinux.Console.Output.{only_newlines, fd_write_console}
use uefilinux.Syscall.{arguments}
use uefilinux.Syscall.Bridge.{my_syscall, my_syscall-fd_write}
use uefilinux.UserImpl.{Nolibc, set_local, putchar, puts}

-- nolibc's `write` makes system call 1, and returns -1 for its errors; `errno` is outside the model.
pub record WritesBySyscall {W : Type 0} (fw : Firmware W) (libc : Nolibc W) : Type 0 where
  pub write_lem :
      (fd : ℤ) (buf count : ℕ) (s : Machine W)
      → libc.write fd buf count s
        ≡ and_then
            (my_syscall fw 1 (arguments (to_u64 fd) buf count 0 0 0) s)
            (λ r. pure (if is_neg r then negsuc 0 else r))

-- The run ends, in undefined behaviour or not.
abbrev Ends : {W A : Type 0} → Run W A → Type 0
Ends (ok a s) = Unit {0}
Ends fault = Unit {0}
Ends (spin s) = ⊥

and_then-fault :
    {W A B : Type 0} (m : Run W A) (k : A → Command W B)
    → Ends m
    → ((a : A) (t : Machine W) → k a t ≡ fault)
    → and_then m k ≡ fault
and_then-fault (ok a t) k h next = next a t
and_then-fault fault k h next = refl
and_then-fault (spin t) k h next = absurd h

module _ {W : Type 0} (fw : Firmware W) (libc : Nolibc W) (w : WritesBySyscall fw libc) where
  write_one :
      (local : ℕ) (s : Machine W)
      → fd_write fw (to_int (to_u64 (pos 1))) local 1 s ≡ (
          let c = s.mem.bytes local in
          let (status, w) = fw.output_string (translate (c ∷ [])) s.world in
          if only_newlines (c ∷ [])
          then fault
          else ok
              (if fw.is_error status then neg (efi_status_to_errno fw status) else to_long 1)
              (record s { world = w }))
  unfolding load_bytes to_int to_u64
  write_one local s = fd_write_console fw s 1 local 1 refl (omega arith)

  -- `_putchar` shows every character but the line feed, the NUL as none, whatever the firmware's status;
  -- at a line feed the emulated write goes outside its buffer.
  pub putchar_lem :
      (local c : ℕ) (s : Machine W)
      → putchar libc local c s ≡ (
          if c == b'\n'
          then fault
          else ok tt (record s {
            mem = record (s.mem) { bytes = update s.mem.bytes local c };
            world = (fw.output_string (translate (c ∷ [])) s.world).1;
          }))
  unfolding putchar set_local update
  putchar_lem local c s =
      let here : update s.mem.bytes local c local ≡ c = ground arith in
      elim (Bool-cases (c == b'\n')) [
        | inl newline ↦ rw (
          putchar,
          w.write_lem (pos 1) local 1 set_c,
          my_syscall-fd_write fw (to_u64 (pos 1)) local 1 0 0 0 set_c,
          write_one local set_c,
          here,
          newline,
        )
        | inr other ↦ rw (
          putchar,
          w.write_lem (pos 1) local 1 set_c,
          my_syscall-fd_write fw (to_u64 (pos 1)) local 1 0 0 0 set_c,
          write_one local set_c,
          here,
          other,
        )
      ]
    where
      set_c : Machine W
      set_c = record s { mem = record (s.mem) { bytes = update s.mem.bytes local c } }

  -- `write` does not loop on a text; it may go outside its buffer itself.
  write-Ends : (str n : ℕ) (s : Machine W) → n < 2 ^ 31 → Ends (libc.write (pos 1) str n s)
  unfolding to_int to_u64
  write-Ends str n s small =
      let shown = fd_write_console fw s 1 str n refl small in
      let called = my_syscall-fd_write fw (to_u64 (pos 1)) str n 0 0 0 s in
      elim (Bool-cases (only_newlines (load_bytes s.mem.bytes str n))) [
        | inl bad ↦ rw (w.write_lem (pos 1) str n s, called, shown, bad) tt
        | inr good ↦ rw (w.write_lem (pos 1) str n s, called, shown, good) tt
      ]

  -- Where nolibc's `write` makes system call 1, `_puts` of a text of less than 2 ^ 31 bytes runs into
  -- undefined behaviour: the line feed that it ends with goes outside the buffer.
  pub puts_fault :
      (local str n : ℕ) (s : Machine W)
      → libc.strlen str s ≡ ok n s
      → n < 2 ^ 31
      → puts libc local str s ≡ fault
  unfolding puts
  puts_fault local str n s counted small =
      rw (puts, counted)
        (and_then-fault (libc.write (pos 1) str n s) _ (write-Ends str n s small)
          λ r t. putchar_lem local b'\n' t)
