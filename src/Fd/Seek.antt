-- ===== src/Fd/Seek.antt =====
-- `fd_lseek` of src/linux-uefi.c.
pub mod Lands
use uefilinux.Base.{ℕ, ◌+◌, ◌%◌, ◌^◌, ◌≡◌, ◌≢◌, false, ◌==◌, ◌<◌, ℤ, pos, negsuc, to_long, arith}
use uefilinux.Efi.{Firmware}
use uefilinux.Machine.{Machine, ok, fault}
use uefilinux.Fd.{fd_lseek, seek_set, seek_cur, seek_end, seek_result}
use uefilinux.Fd.Table.{IsOpen, find_fd-IsOpen}

-- The firmware's files report the position that was set: `set_position` with no error makes
-- `get_position` answer with it, and not fail. A position of 2 ^ 64 - 1 stands for the file's end.
pub record KeepsPositions {W : Type 0} (fw : Firmware W) (size : ℕ → W → ℕ) : Type 0 where
  pub set_get :
      (handle p : ℕ) (w : W)
      → p ≢ 0xffff_ffff_ffff_ffff
      → fw.is_error (fw.set_position handle p w).0 ≡ false
      → ((fw.get_position handle (fw.set_position handle p w).1).0.1 ≡ p)
        × (fw.is_error (fw.get_position handle (fw.set_position handle p w).1).0.0 ≡ false)
  pub set_end :
      (handle : ℕ) (w : W)
      → fw.is_error (fw.set_position handle 0xffff_ffff_ffff_ffff w).0 ≡ false
      → ((fw.get_position handle (fw.set_position handle 0xffff_ffff_ffff_ffff w).1).0.1
          ≡ size handle w)
        × (fw.is_error
              (fw.get_position handle (fw.set_position handle 0xffff_ffff_ffff_ffff w).1).0.0
            ≡ false)

module _ {W : Type 0} (fw : Firmware W) (s : Machine W) where
  -- A `whence` other than SEEK_SET, SEEK_CUR and SEEK_END is undefined behaviour.
  pub lseek_bad_whence :
      (fd : ℤ) (i handle offset : ℕ) (whence : ℤ)
      → IsOpen s.fds fd i handle
      → whence ≢ pos 0
      → whence ≢ pos 1
      → whence ≢ pos 2
      → fd_lseek fw fd offset whence s ≡ fault
  unfolding fd_lseek
  lseek_bad_whence fd i handle offset (negsuc n) o a b c = rw (find_fd-IsOpen s i handle o)
  lseek_bad_whence fd i handle offset (pos n) o a b c =
      let a' : (n == 0) ≡ false = ground arith in
      let b' : (n == 1) ≡ false = ground arith in
      let c' : (n == 2) ≡ false = ground arith in rw (find_fd-IsOpen s i handle o, a', b', c')

  -- Where the firmware keeps positions and reaches the end of the file without error, SEEK_END on
  -- an open descriptor sets the file's size plus the offset, modulo 2 ^ 64, and returns it, or the
  -- error of that last call.
  pub lseek_end :
      (size : ℕ → W → ℕ) (fd : ℤ) (i handle offset : ℕ)
      → KeepsPositions fw size
      → IsOpen s.fds fd i handle
      → fw.is_error (fw.set_position handle 0xffff_ffff_ffff_ffff s.world).0 ≡ false
      → fd_lseek fw fd offset (pos 2) s ≡ (
          let w =
            (fw.get_position handle (fw.set_position handle 0xffff_ffff_ffff_ffff s.world).1).1 in
          let target = (size handle s.world + offset) % 2 ^ 64 in
          let (status, w') = fw.set_position handle target w in
          ok (seek_result fw status target) (record s { world = w' }))
  unfolding fd_lseek seek_end seek_cur
  lseek_end size fd i handle offset k o good = rw (
    find_fd-IsOpen s i handle o,
    good,
    (k.set_end handle s.world good).0,
    (k.set_end handle s.world good).1,
  )

  to_long-small : (p : ℕ) → p < 2 ^ 63 → to_long p ≡ pos p
  unfolding to_long
  to_long-small p lt = ground arith

  -- Where the firmware keeps the positions that are set and always sets this one without error,
  -- SEEK_SET to a position below 2 ^ 63 on an open descriptor returns it, and SEEK_CUR by 0 after
  -- it returns it again.
  pub seek_tell :
      (size : ℕ → W → ℕ) (fd : ℤ) (i handle p : ℕ)
      → KeepsPositions fw size
      → IsOpen s.fds fd i handle
      → p < 2 ^ 63
      → ((w : W) → fw.is_error (fw.set_position handle p w).0 ≡ false)
      → (w w' : W) × (fd_lseek fw fd p (pos 0) s ≡ ok (pos p) (record s { world = w }))
        × (fd_lseek fw fd 0 (pos 1) (record s { world = w }) ≡ ok (pos p) (record s { world = w' }))
  unfolding fd_lseek seek_set seek_cur seek_result
  seek_tell size fd i handle p k o lt good =
      (w, (fw.set_position handle p (fw.get_position handle w).1).1, first, second)
    where
      w : W
      w = (fw.set_position handle p s.world).1

      small : p % 2 ^ 64 ≡ p
      small = omega arith

      same : (p + 0) % 2 ^ 64 ≡ p
      same = omega arith

      at :
          ((fw.get_position handle w).0.1 ≡ p)
          × (fw.is_error (fw.get_position handle w).0.0 ≡ false)
      at = k.set_get handle p s.world (omega arith) (good s.world)

      first : fd_lseek fw fd p (pos 0) s ≡ ok (pos p) (record s { world = w })
      first = rw (find_fd-IsOpen s i handle o, small, good s.world, to_long-small p lt)

      second :
          fd_lseek fw fd 0 (pos 1) (record s { world = w })
          ≡ ok
              (pos p)
              (record s { world = (fw.set_position handle p (fw.get_position handle w).1).1 })
      second = rw (
        find_fd-IsOpen (record s { world = w }) i handle o,
        at.0,
        at.1,
        same,
        good (fw.get_position handle w).1,
        to_long-small p lt,
      )
