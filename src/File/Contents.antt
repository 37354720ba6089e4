-- ===== src/File/Contents.antt =====
-- A write, a seek back and a read through the descriptor of a file whose contents the firmware keeps.
use uefilinux.Base.{
  ℕ, zero, suc, ◌+◌, ◌%◌, ◌^◌, ◌≤◌, ◌<◌, ◌≡◌, refl, sym, ap, ◌∙◌, false, List, [], ◌∷◌, ◌++◌, take,
  drop, length, ltb, ◌==◌, ◌||◌, ℤ, pos, to_long, arith,
}
use uefilinux.Efi.{Firmware}
use uefilinux.Machine.{Machine, ok}
use uefilinux.Fd.{max_fds, virtual_fd_base, fd_lseek, seek_set, seek_result}
use uefilinux.Fd.Table.{IsOpen, find_fd-IsOpen}
use uefilinux.File.{load_bytes, store_bytes, read_file, write_file}
use uefilinux.File.Transfer.{load-store_bytes}
use uefilinux.Console.{fd_read, fd_write}

-- The bytes put over what stands from a place on.
abbrev pub overwritten : List ℕ → ℕ → List ℕ → List ℕ
overwritten xs p bytes = take p xs ++ (bytes ++ drop (p + length bytes) xs)

-- The firmware's file behind a handle: its contents, with a position from which `Read` and `Write` go on.
pub record KeepsContents {W : Type 0} (fw : Firmware W) (handle : ℕ) : Type 0 where
  pub contents : W → List ℕ
  pub position : W → ℕ
  pub write_all :
      (bytes : List ℕ) (w : W)
      → fw.is_error (fw.write handle bytes w).0.0 ≡ false
      → ((fw.write handle bytes w).0.1 ≡ length bytes)
        × (contents (fw.write handle bytes w).1 ≡ overwritten (contents w) (position w) bytes)
  pub seek :
      (p : ℕ) (w : W)
      → p < 2 ^ 63
      → fw.is_error (fw.set_position handle p w).0 ≡ false
      → (position (fw.set_position handle p w).1 ≡ p)
        × (contents (fw.set_position handle p w).1 ≡ contents w)
  pub read_on :
      (count : ℕ) (w : W)
      → fw.is_error (fw.read handle count w).0.0 ≡ false
      → ((fw.read handle count w).0.2 ≡ take count (drop (position w) (contents w)))
        × ((fw.read handle count w).0.1 ≡ length (fw.read handle count w).0.2)

take-length : (xs ys : List ℕ) → take (length xs) (xs ++ ys) ≡ xs
take-length [] ys = refl
take-length (x ∷ xs) ys = ap (λ (l : List ℕ). x ∷ l) (take-length xs ys)

drop-take : (p : ℕ) (xs ys : List ℕ) → p ≤ length xs → drop p (take p xs ++ ys) ≡ ys
drop-take zero xs ys h = refl
drop-take (suc p) [] ys h = absurd (omega arith)
drop-take (suc p) (x ∷ xs) ys h = drop-take p xs ys (omega arith)

-- What was put over the contents is found there.
take-drop-overwritten :
    (xs bytes : List ℕ) (p : ℕ)
    → p ≤ length xs
    → take (length bytes) (drop p (overwritten xs p bytes)) ≡ bytes
take-drop-overwritten xs bytes p h =
    rw (drop-take p xs (bytes ++ drop (p + length bytes) xs) h)
      (take-length bytes (drop (p + length bytes) xs))

length-load_bytes : (m : ℕ → ℕ) (p n : ℕ) → length (load_bytes m p n) ≡ n
unfolding load_bytes
length-load_bytes m p zero = refl
length-load_bytes m p (suc n) = ap suc (length-load_bytes m (p + 1) n)

-- The firmware's calls on the handle report no error.
pub record Succeeds {W : Type 0} (fw : Firmware W) (handle : ℕ) : Type 0 where
  pub written : (bytes : List ℕ) (w : W) → fw.is_error (fw.write handle bytes w).0.0 ≡ false
  pub set : (p : ℕ) (w : W) → fw.is_error (fw.set_position handle p w).0 ≡ false
  pub delivered : (count : ℕ) (w : W) → fw.is_error (fw.read handle count w).0.0 ≡ false

to_long-pos : (n : ℕ) → n < 2 ^ 63 → to_long n ≡ pos n
unfolding to_long
to_long-pos n h = ground arith

module _ {W : Type 0} (fw : Firmware W) (handle : ℕ) (good : Succeeds fw handle) where
  own_number :
      (fds : List ℕ) (fd : ℤ) (i : ℕ)
      → IsOpen fds fd i handle
      → IsOpen fds (pos (i + virtual_fd_base)) i handle
  own_number fds fd i o = record {
    number = refl;
    small = o.small;
    holds = o.holds;
    not_null = o.not_null;
  }

  write-Succeeds :
      (s : Machine W) (fd : ℤ) (i buf count : ℕ)
      → IsOpen s.fds fd i handle
      → fd_write fw fd buf count s ≡ (
          let ((status, done), w) = fw.write handle (load_bytes s.mem.bytes buf count) s.world in
          ok (to_long done) (record s { world = w }))
  unfolding fd_write write_file
  write-Succeeds s fd i buf count o =
      let fits : ltb max_fds (i + virtual_fd_base) ≡ false = ground (arith, o.small) in
      let not_out : (i + virtual_fd_base == 1 || i + virtual_fd_base == 2) ≡ false = ground arith in
      rw (
        o.number,
        fd_write,
        fits,
        not_out,
        find_fd-IsOpen s i handle (own_number s.fds fd i o),
        good.written (load_bytes s.mem.bytes buf count) s.world,
      )

  read-Succeeds :
      (s : Machine W) (fd : ℤ) (i buf count : ℕ)
      → IsOpen s.fds fd i handle
      → fd_read fw fd buf count s ≡ (
          let ((status, done, bytes), w) = fw.read handle count s.world in
          ok (to_long done) (record s {
            mem = record (s.mem) { bytes = store_bytes s.mem.bytes buf bytes };
            world = w;
          }))
  unfolding fd_read read_file
  read-Succeeds s fd i buf count o =
      let fits : ltb max_fds (i + virtual_fd_base) ≡ false = ground (arith, o.small) in
      let not_in : (i + virtual_fd_base == 0) ≡ false = ground arith in
      rw (
        o.number,
        fd_read,
        fits,
        not_in,
        find_fd-IsOpen s i handle (own_number s.fds fd i o),
        good.delivered count s.world,
      )

  seek-Succeeds :
      (s : Machine W) (fd : ℤ) (i p : ℕ)
      → IsOpen s.fds fd i handle
      → p < 2 ^ 63
      → fd_lseek fw fd p (pos 0) s
        ≡ ok (pos p) (record s { world = (fw.set_position handle p s.world).1 })
  unfolding fd_lseek seek_set seek_result
  seek-Succeeds s fd i p o small =
      let same : p % 2 ^ 64 ≡ p = omega arith in
      rw (find_fd-IsOpen s i handle o, same, good.set p s.world, to_long-pos p small)

  -- Where the firmware keeps the contents and the position of an open file and reports no error on
  -- it: after a write of fewer than 2 ^ 63 bytes at a position inside the contents, SEEK_SET back
  -- to that position and a read of as many bytes to anywhere, the bytes there are the ones that
  -- were written; the write and the read return their number, and the seek the position.
  pub write_read :
      (k : KeepsContents fw handle) (s : Machine W) (fd : ℤ) (i buf target count : ℕ)
      → IsOpen s.fds fd i handle
      → count < 2 ^ 63
      → k.position s.world ≤ length (k.contents s.world)
      → k.position s.world < 2 ^ 63
      → (w1 w2 : W) × (t : Machine W) × (fd_write fw fd buf count s
          ≡ ok (pos count) (record s { world = w1 }))
        × (fd_lseek fw fd (k.position s.world) (pos 0) (record s { world = w1 })
            ≡ ok (pos (k.position s.world)) (record s { world = w2 }))
        × (fd_read fw fd target count (record s { world = w2 }) ≡ ok (pos count) t)
        × (load_bytes t.mem.bytes target count ≡ load_bytes s.mem.bytes buf count)
  write_read k s fd i buf target count o small inside low = (
    w1,
    w2,
    t,
    write-Succeeds s fd i buf count o
        ∙ ap (λ (z : ℤ). ok z (record s { world = w1 }))
            (ap to_long (k.write_all bytes s.world (good.written bytes s.world)).0
              ∙ ap to_long many
              ∙ to_long-pos count small),
    seek-Succeeds (record s { world = w1 }) fd i p o low,
    read-Succeeds (record s { world = w2 }) fd i target count o
        ∙ ap (λ (z : ℤ). ok z t)
            (ap to_long ((k.read_on count w2 (good.delivered count w2)).1 ∙ ap length found ∙ many)
              ∙ to_long-pos count small),
    ap (λ (n : ℕ). load_bytes t.mem.bytes target n) (sym (ap length found ∙ many))
        ∙ load-store_bytes got s.mem.bytes target
        ∙ found,
  )
    where
      bytes : List ℕ
      bytes = load_bytes s.mem.bytes buf count

      many : length bytes ≡ count
      many = length-load_bytes s.mem.bytes buf count

      p : ℕ
      p = k.position s.world

      w1 : W
      w1 = (fw.write handle bytes s.world).1

      w2 : W
      w2 = (fw.set_position handle p w1).1

      got : List ℕ
      got = (fw.read handle count w2).0.2

      t : Machine W
      t = record s {
        mem = record (s.mem) { bytes = store_bytes s.mem.bytes target got };
        world = (fw.read handle count w2).1;
      }

      found : got ≡ bytes
      found =
          let (at, same) = k.seek p w1 low (good.set p w1) in
          (k.read_on count w2 (good.delivered count w2)).0
          ∙ (ap (λ (xs : List ℕ). take count (drop (k.position w2) xs)) same
              ∙ (ap (λ (n : ℕ). take count (drop n (k.contents w1))) at
                  ∙ (ap (λ (xs : List ℕ). take count (drop p xs))
                        (k.write_all bytes s.world (good.written bytes s.world)).1
                      ∙ (ap (λ (n : ℕ). take n (drop p (overwritten (k.contents s.world) p bytes)))
                            (sym many)
                          ∙ take-drop-overwritten (k.contents s.world) bytes p inside))))
