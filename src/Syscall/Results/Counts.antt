-- ===== src/Syscall/Results/Counts.antt =====
-- The results of the calls that return a number which the firmware or the caller gave: `fd_read`,
-- `fd_write`, `fd_lseek` and `fd_getdents64`.
use uefilinux.Base.{
  ℕ, zero, suc, ◌+◌, ◌%◌, ◌^◌, ◌<◌, ◌≡◌, refl, ◌==◌, ◌&&◌, if◌then◌else◌, Bool-cases, inl, inr,
  Option, none, some, List, ℤ, pos, negsuc, to_int, to_long, arith,
}
use uefilinux.Efi.{Firmware, FileInfo}
use uefilinux.Errno.{ebadf}
use uefilinux.Machine.{Machine, Command, pure}
use uefilinux.Machine.After.{Results, Results-and_then}
use uefilinux.Fd.{seek_result, fd_lseek, seek_set, seek_cur, seek_end}
use uefilinux.File.{read_file, write_file}
use uefilinux.Console.{
  fd_read, fd_write, console_write, show, read_keys, take_key, wait_key, echo, store_key, key_char,
  console_text,
}
use uefilinux.Directory.{enter, read_entries, fd_getdents64}
use uefilinux.Syscall.Results.{ResultProperty, firmware_error, Results-status, Results-find}

to_long-small : (w : ℕ) → w < 2 ^ 32 → to_long w ≡ pos w
unfolding to_long
to_long-small w h = ground arith

module _ {W : Type 0} (fw : Firmware W) (Q : ℤ → Type 0) (q : ResultProperty Q)
    (long : (w : ℕ) → Q (to_long w)) where
  count-Q : (w : ℕ) → Q (pos (w % 2 ^ 32))
  count-Q w =
      let same : to_long (w % 2 ^ 32) ≡ pos (w % 2 ^ 32) =
        to_long-small (w % 2 ^ 32) (omega arith) in
      rw (← same) (long (w % 2 ^ 32))

  Results-read_file :
      (fd : ℤ) (buf count : ℕ) (s : Machine W) → Results Q (read_file fw fd buf count s)
  unfolding read_file
  Results-read_file fd buf count s =
      Results-find fw Q q fd _ s (λ e h. h) λ i handle. Results-status fw Q q _ _ _ (long _)

  Results-write_file :
      (fd : ℤ) (buf count : ℕ) (s : Machine W) → Results Q (write_file fw fd buf count s)
  unfolding write_file
  Results-write_file fd buf count s =
      Results-find fw Q q fd _ s (λ e h. h) λ i handle. Results-status fw Q q _ _ _ (long _)

  Results-console_write : (buf count : ℕ) (s : Machine W) → Results Q (console_write fw buf count s)
  unfolding console_write show
  Results-console_write buf count s = shown (console_text (λ it. s.mem.bytes (buf + it)) count)
    where
      shown : (text : Option (List ℕ)) → Results Q (show fw text count s)
      shown none = tt
      shown (some text) = Results-status fw Q q _ _ _ (long count)

  pub Results-fd_write :
      (fd : ℤ) (buf count : ℕ) (s : Machine W) → Results Q (fd_write fw fd buf count s)
  unfolding fd_write
  Results-fd_write (negsuc n) buf count s = Results-write_file (negsuc n) buf count s
  Results-fd_write (pos n) buf count s = ground (
    arith,
    q.error ebadf refl,
    Results-console_write buf count s,
    Results-write_file (pos n) buf count s,
  )

  Results-take_key :
      (next : ℕ → Command W ℤ) (buf it : ℕ) (k : Option ℕ) (s : Machine W)
      → ((it' : ℕ) (t : Machine W) → Results Q (next it' t))
      → Results Q (take_key fw next buf it k s)
  unfolding take_key
  Results-take_key next buf it none s on = tt
  Results-take_key next buf it (some key) s on = elim (Bool-cases (it == 0 && key % 256 == 8)) [
    | inl erased ↦ rw erased (on ((it + 1) % 2 ^ 32) s)
    | inr kept ↦ rw kept (
        Results-and_then Q (echo fw key s) _ λ u t.
          Results-and_then Q (store_key fw (buf + it) (key_char fw key) t) _ λ u' t'. ends key t')
  ]
    where
      ends :
          (key : ℕ) (t : Machine W)
          → Results Q (
              (if key_char fw key == b'\n'
                  then pure (pos ((it + 1) % 2 ^ 32))
                  else next ((it + 1) % 2 ^ 32))
                t)
      ends key t = elim (Bool-cases (key_char fw key == b'\n')) [
        | inl last ↦ rw last (count-Q (it + 1))
        | inr more ↦ rw more (on ((it + 1) % 2 ^ 32) t)
      ]

  Results-read_keys :
      (fuel buf count it : ℕ) (s : Machine W) → Results Q (read_keys fw fuel buf count it s)
  unfolding read_keys
  Results-read_keys zero buf count it s = tt
  Results-read_keys (suc fuel) buf count it s = elim (Bool-cases (it == count)) [
    | inl full ↦ rw (read_keys, full) (count-Q (it + 1))
    | inr room ↦
        rw (read_keys, room)
          (Results-and_then Q (wait_key fw s) _
            λ k t. Results-take_key _ buf it k t λ it' t'. Results-read_keys fuel buf count it' t')
  ]

  pub Results-fd_read :
      (fd : ℤ) (buf count : ℕ) (s : Machine W) → Results Q (fd_read fw fd buf count s)
  unfolding fd_read
  Results-fd_read (negsuc n) buf count s = Results-read_file (negsuc n) buf count s
  Results-fd_read (pos n) buf count s = ground (
    arith,
    q.error ebadf refl,
    Results-read_keys (count + 1) buf count 0 s,
    Results-read_file (pos n) buf count s,
  )

  seek_result-Q : (status offset64 : ℕ) → Q (seek_result fw status offset64)
  unfolding seek_result
  seek_result-Q status offset64 = elim (Bool-cases (fw.is_error status)) [
    | inl bad ↦ rw (seek_result, bad) (firmware_error fw Q q status)
    | inr good ↦ rw (seek_result, good) (long offset64)
  ]

  Results-seek_cur : (handle offset : ℕ) (s : Machine W) → Results Q (seek_cur fw handle offset s)
  unfolding seek_cur
  Results-seek_cur handle offset s = Results-status fw Q q _ _ _ (seek_result-Q _ _)

  Results-seek_end : (handle offset : ℕ) (s : Machine W) → Results Q (seek_end fw handle offset s)
  unfolding seek_end
  Results-seek_end handle offset s = Results-status fw Q q _ _ _ (Results-seek_cur handle offset _)

  pub Results-fd_lseek :
      (fd : ℤ) (offset : ℕ) (whence : ℤ) (s : Machine W)
      → Results Q (fd_lseek fw fd offset whence s)
  unfolding fd_lseek seek_set
  Results-fd_lseek fd offset (negsuc n) s = Results-find fw Q q fd _ s (λ e h. h) λ i handle. tt
  Results-fd_lseek fd offset (pos n) s =
      Results-find fw Q q fd _ s (λ e h. h)
        λ i handle. ground (
          arith,
          seek_result-Q (fw.set_position handle (offset % 2 ^ 64) s.world).0 (offset % 2 ^ 64),
          Results-seek_cur handle offset s,
          Results-seek_end handle offset s,
        )

module _ {W : Type 0} (fw : Firmware W) (Q : ℤ → Type 0) (q : ResultProperty Q)
    (int : (w : ℕ) → Q (to_int w)) where
  Results-enter :
      (next : ℕ → Command W ℤ) (dire fres : ℕ) (read : Option FileInfo) (s : Machine W)
      → ((sum : ℕ) (t : Machine W) → Results Q (next sum t))
      → Results Q (enter next dire fres read s)
  unfolding enter
  Results-enter next dire fres none s on = tt
  Results-enter next dire fres (some info) s on = on _ _

  Results-read_entries :
      (handle left dire fres : ℕ) (s : Machine W)
      → Results Q (read_entries fw handle left dire fres s)
  unfolding read_entries
  Results-read_entries handle zero dire fres s = int fres
  Results-read_entries handle (suc left) dire fres s =
      Results-status fw Q q _ _ _
        (Results-enter _ dire fres _ _ λ sum t. Results-read_entries handle left dire sum t)

  pub Results-getdents64 :
      (fd : ℤ) (dirp : ℕ) (count : ℤ) (s : Machine W) → Results Q (fd_getdents64 fw fd dirp count s)
  unfolding fd_getdents64
  Results-getdents64 fd dirp count s =
      Results-find fw Q q fd _ s (λ e h. h) λ i handle. Results-read_entries handle _ _ 0 s
