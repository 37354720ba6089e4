-- ===== src/File/Transfer.antt =====
-- `fd_read` and `fd_write` on an open file, and the bytes that they move.
use uefilinux.Base.{
  ℕ, ◌+◌, ◌≤◌, ◌<◌, ◌≡◌, ◌⊎◌, inl, refl, ◌∙◌, false, List, [], ◌∷◌, length, ltb, ◌==◌,
  if◌then◌else◌, ℤ, pos, neg, to_long, arith,
}
use uefilinux.Efi.{Firmware}
use uefilinux.Errno.{efi_status_to_errno}
use uefilinux.Machine.{Machine, ok, update}
use uefilinux.Fd.{max_fds, virtual_fd_base}
use uefilinux.Fd.Table.{IsOpen, find_fd-IsOpen}
use uefilinux.File.{load_bytes, store_bytes, read_file}
use uefilinux.Console.{fd_read}

-- A byte outside the ones that are written stays.
pub store_bytes-outside :
    (bs : List ℕ) (m : ℕ → ℕ) (p q : ℕ) → (q < p) ⊎ (p + length bs ≤ q) → store_bytes m p bs q ≡ m q
unfolding store_bytes update
store_bytes-outside [] m p q out = refl
store_bytes-outside (b ∷ bs) m p q out =
    let other : (q == p) ≡ false = ground arith in
    store_bytes-outside bs (update m p b) (p + 1) q (ground arith) ∙ rw other

-- What is written is read back.
pub load-store_bytes :
    (bs : List ℕ) (m : ℕ → ℕ) (p : ℕ) → load_bytes (store_bytes m p bs) p (length bs) ≡ bs
unfolding load_bytes store_bytes update
load-store_bytes [] m p = refl
load-store_bytes (b ∷ bs) m p =
    let first : store_bytes (update m p b) (p + 1) bs p ≡ b =
      store_bytes-outside bs (update m p b) (p + 1) p (inl (omega arith)) ∙ ground arith in
    rw (first, load-store_bytes bs (update m p b) (p + 1))

module _ {W : Type 0} (fw : Firmware W) (s : Machine W) where
  -- `fd_read` on an open file leaves the bytes that the firmware delivers from `buf` on, and every
  -- other byte, slot and object as it was; it returns the firmware's number of bytes, or the error
  -- of its status.
  pub read_file_lem :
      (fd : ℤ) (i handle buf count : ℕ)
      → IsOpen s.fds fd i handle
      → (let ((status, done, delivered), w) = fw.read handle count s.world in
          (m : ℕ → ℕ) × (fd_read fw fd buf count s
            ≡ ok
                (if fw.is_error status then neg (efi_status_to_errno fw status) else to_long done)
                (record s { mem = record (s.mem) { bytes = m }; world = w }))
          × (load_bytes m buf (length delivered) ≡ delivered)
          × ((q : ℕ) → (q < buf) ⊎ (buf + length delivered ≤ q) → m q ≡ s.mem.bytes q))
  unfolding fd_read read_file
  read_file_lem fd i handle buf count o =
      let ((status, done, delivered), w) = fw.read handle count s.world in
      let fits : ltb max_fds (i + virtual_fd_base) ≡ false = ground (arith, o.small) in
      let not_stdin : (i + virtual_fd_base == 0) ≡ false = ground arith in
      (
        store_bytes s.mem.bytes buf delivered,
        rw
            (
              o.number,
              fd_read,
              fits,
              not_stdin,
              find_fd-IsOpen s i handle (number_refl fd i handle o),
            )
            (ground arith),
        load-store_bytes delivered s.mem.bytes buf,
        λ q out. store_bytes-outside delivered s.mem.bytes buf q out,
      )
    where
      number_refl :
          (fd : ℤ) (i handle : ℕ)
          → IsOpen s.fds fd i handle
          → IsOpen s.fds (pos (i + virtual_fd_base)) i handle
      number_refl fd i handle o = record {
        number = refl;
        small = o.small;
        holds = o.holds;
        not_null = o.not_null;
      }
