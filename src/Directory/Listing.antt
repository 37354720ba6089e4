-- ===== src/Directory/Listing.antt =====
-- `fd_getdents64` on a directory with a list of entries.
use uefilinux.Base.{
  ℕ, zero, suc, ◌+◌, ◌*◌, ◌/◌, ◌%◌, ◌^◌, ◌≤◌, ◌<◌, ◌≡◌, refl, ap, ◌∙◌, false, none, some, List, [],
  ◌∷◌, take, drop, length, ◌⊎◌, inl, inr, Bool-cases, ltb, ◌==◌, ℤ, pos, to_int, to_u64, to_u32,
  arith,
}
use uefilinux.Efi.{Firmware, FileInfo}
use uefilinux.Machine.{Machine, Dirent, ok, fault, update}
use uefilinux.Fd.Table.{IsOpen, find_fd-IsOpen}
use uefilinux.Directory.{
  sizeof_dirent, record_length, dirent_of, enter, read_entries, fd_getdents64,
}
use uefilinux.Directory.Entries.{entry_count_lem}

-- A directory, by its handle, that has a list of entries still to be read: what UEFI says of Read on
-- it, which gives no entry and no error at the end.
pub record HasListing {W : Type 0} (fw : Firmware W) (handle : ℕ) : Type 0 where
  pub listing : W → List FileInfo
  pub good : (w : W) → fw.is_error (fw.read_directory handle w).0.0 ≡ false
  pub next :
      (info : FileInfo) (rest : List FileInfo) (w : W)
      → listing w ≡ info ∷ rest
      → ((fw.read_directory handle w).0.1 ≡ some info)
        × (listing (fw.read_directory handle w).1 ≡ rest)
  pub end : (w : W) → listing w ≡ [] → (fw.read_directory handle w).0.1 ≡ none

-- The lengths of the entries together.
abbrev pub total_length : List FileInfo → ℕ
total_length [] = 0
total_length (info ∷ rest) = record_length (length info.file_name) + total_length rest

-- The last of a list, or an entry as it was.
abbrev pub last_entry : List FileInfo → Dirent → Dirent
last_entry [] old = old
last_entry (info ∷ []) old = dirent_of info old
last_entry (info ∷ rest) old = last_entry rest old

-- Names that fit into an entry of 24 bytes, their terminator included.
abbrev pub AllShort : List FileInfo → Type 0
AllShort [] = Unit {0}
AllShort (info ∷ rest) = (length info.file_name ≤ 4) × AllShort rest

-- What such entries count for.
abbrev pub sum_of_lengths : List FileInfo → ℕ
sum_of_lengths [] = 0
sum_of_lengths (info ∷ rest) = 20 + length info.file_name + sum_of_lengths rest

total_length-AllShort :
    (n : ℕ) (infos : List FileInfo)
    → AllShort infos
    → (total_length (take n infos) ≡ sum_of_lengths (take n infos))
      × (sum_of_lengths (take n infos) ≤ sizeof_dirent * n)
unfolding record_length
total_length-AllShort zero infos short = (refl, omega arith)
total_length-AllShort (suc n) [] short = (refl, omega arith)
total_length-AllShort (suc n) (info ∷ infos) (le, short) =
    let (same, small) = total_length-AllShort n infos short in (omega arith, omega arith)

last_entry-cons :
    (rest : List FileInfo) (info : FileInfo) (old : Dirent)
    → last_entry rest (dirent_of info old) ≡ last_entry (info ∷ rest) old
unfolding dirent_of
last_entry-cons [] info old = refl
last_entry-cons (x ∷ []) info old = refl
last_entry-cons (x ∷ y ∷ rest) info old = last_entry-cons (y ∷ rest) info old

module _ {W : Type 0} (fw : Firmware W) (handle : ℕ) (dirs : HasListing fw handle) (dire : ℕ) where
  -- The entries were read, and the 24 bytes from `dire` on have the last of them; every byte and entry
  -- outside these is as before, and so is every global variable.
  pub record Entered (infos left : List FileInfo) (s t : Machine W) : Type 0 where
    pub last : t.mem.dirents dire ≡ last_entry infos (s.mem.dirents dire)
    pub entries :
        (p : ℕ)
        → (p + sizeof_dirent ≤ dire) ⊎ (dire + sizeof_dirent ≤ p)
        → t.mem.dirents p ≡ s.mem.dirents p
    pub bytes : (p : ℕ) → (p < dire) ⊎ (dire + sizeof_dirent ≤ p) → t.mem.bytes p ≡ s.mem.bytes p
    pub rest : dirs.listing t.world ≡ left
    pub fds : t.fds ≡ s.fds
    pub fres : t.fres ≡ s.fres
    pub image : t.image ≡ s.image
    pub volume : t.volume ≡ s.volume

  written : FileInfo → Machine W → Machine W
  written info s = record s {
    mem = record (s.mem) {
      dirents = update s.mem.dirents dire (dirent_of info (s.mem.dirents dire));
    };
    world = (fw.read_directory handle s.world).1;
  }

  apart : (p : ℕ) → (p + sizeof_dirent ≤ dire) ⊎ (dire + sizeof_dirent ≤ p) → (p == dire) ≡ false
  apart p (inl below) = ground arith
  apart p (inr above) = ground arith

  elsewhere :
      (info : FileInfo) (s : Machine W) (p : ℕ)
      → (p == dire) ≡ false
      → update s.mem.dirents dire (dirent_of info (s.mem.dirents dire)) p ≡ s.mem.dirents p
  unfolding update
  elsewhere info s p other = rw other

  read_entries-Entered :
      (n fres : ℕ) (infos : List FileInfo) (s : Machine W)
      → dirs.listing s.world ≡ infos
      → n ≤ length infos
      → fres < 2 ^ 64
      → (t : Machine W) × (read_entries fw handle n dire fres s
          ≡ ok (to_int ((fres + total_length (take n infos)) % 2 ^ 64)) t)
        × Entered (take n infos) (drop n infos) s t
  unfolding read_entries enter written
  read_entries-Entered zero fres infos s e le small = (
    s,
    ap (λ (v : ℕ). ok (to_int v) s) (omega arith),
    record {
      last = refl;
      entries = λ p other. refl;
      bytes = λ p other. refl;
      rest = e;
      fds = refl;
      fres = refl;
      image = refl;
      volume = refl;
    },
  )
  read_entries-Entered (suc n) fres [] s e le small = absurd (omega arith)
  read_entries-Entered (suc n) fres (info ∷ infos) s e le small =
      let (got, left) = dirs.next info infos s.world e in
      let sum = (fres + record_length (length info.file_name)) % 2 ^ 64 in
      let (t, run, h) =
        read_entries-Entered n sum infos (written info s) left (omega arith) (omega arith) in
      let here : update s.mem.dirents dire (dirent_of info (s.mem.dirents dire)) dire
          ≡ dirent_of info (s.mem.dirents dire) =
        unfold update in ground arith in
      let total : (sum + total_length (take n infos)) % 2 ^ 64
          ≡ (fres + (record_length (length info.file_name) + total_length (take n infos)))
            % 2 ^ 64 =
        omega arith in
      (
        t,
        rw (read_entries, dirs.good s.world, got, run) (ap (λ (v : ℕ). ok (to_int v) t) total),
        record {
          last =
              h.last
              ∙ (ap (last_entry (take n infos)) here
                  ∙ last_entry-cons (take n infos) info (s.mem.dirents dire));
          entries = λ p other. h.entries p other ∙ elsewhere info s p (apart p other);
          bytes = h.bytes;
          rest = h.rest;
          fds = h.fds;
          fres = h.fres;
          image = h.image;
          volume = h.volume;
        },
      )

  read_entries-end :
      (n fres : ℕ) (infos : List FileInfo) (s : Machine W)
      → dirs.listing s.world ≡ infos
      → length infos < n
      → read_entries fw handle n dire fres s ≡ fault
  unfolding read_entries enter written
  read_entries-end zero fres infos s e lt = absurd (omega arith)
  read_entries-end (suc n) fres [] s e lt = rw (read_entries, dirs.good s.world, dirs.end s.world e)
  read_entries-end (suc n) fres (info ∷ infos) s e lt =
      let (got, left) = dirs.next info infos s.world e in
      rw (read_entries, dirs.good s.world, got)
        (read_entries-end n ((fres + record_length (length info.file_name)) % 2 ^ 64) infos
          (written info s) left (omega arith))

to_int-small : (v w : ℕ) → v % 2 ^ 64 ≡ w → w < 2 ^ 31 → to_int (v % 2 ^ 64) ≡ pos w
unfolding to_int
to_int-small v w e small = ground arith

module _ {W : Type 0} (fw : Firmware W) where
  getdents-read_entries :
      (fd : ℤ) (i handle dirp count : ℕ) (s : Machine W)
      → IsOpen s.fds fd i handle
      → count < 2 ^ 31
      → dirp + count < 2 ^ 64
      → fd_getdents64 fw fd dirp (pos count) s
        ≡ read_entries fw handle
            (count / sizeof_dirent)
            (dirp + sizeof_dirent * (count / sizeof_dirent))
            0
            s
  unfolding fd_getdents64 to_u64
  getdents-read_entries fd i handle dirp count s o small fits =
      let n = count / sizeof_dirent in
      let at : (dirp + sizeof_dirent * (n % 2 ^ 64)) % 2 ^ 64 ≡ dirp + sizeof_dirent * n =
        omega arith in
      let rounds : to_u32 (pos n) ≡ n = unfold to_u32 in omega arith in
      rw (find_fd-IsOpen s i handle o, entry_count_lem fw count small, at, rounds)

  -- Where the file of an open descriptor is a directory with a list of entries still to be read,
  -- whose names have at most 4 characters, and no read of it ever gives an error: `fd_getdents64`
  -- of the descriptor, with a count below 2 ^ 31 and a buffer that has 24 more bytes behind it in
  -- the address space, takes one entry for each 24 bytes of the buffer, if so many are left, and
  -- returns the sum of their lengths, 20 and the name's for each; the last of them stands in the 24
  -- bytes behind the whole places that the buffer holds, and no byte and no entry outside these,
  -- and no global variable, changes. If fewer are left, the call runs into undefined behaviour.
  pub getdents_lem :
      (handle : ℕ) (dirs : HasListing fw handle) (fd : ℤ) (i dirp count : ℕ) (s : Machine W)
      → IsOpen s.fds fd i handle
      → count < 2 ^ 31
      → dirp + count + sizeof_dirent ≤ 2 ^ 64
      → AllShort (dirs.listing s.world)
      → let n = count / sizeof_dirent in
        let infos = dirs.listing s.world in
        ((n ≤ length infos)
          × (t : Machine W) × (fd_getdents64 fw fd dirp (pos count) s
              ≡ ok (pos (sum_of_lengths (take n infos))) t)
          × Entered fw handle dirs (dirp + sizeof_dirent * n) (take n infos) (drop n infos) s t)
        ⊎ ((length infos < n) × (fd_getdents64 fw fd dirp (pos count) s ≡ fault))
  getdents_lem handle dirs fd i dirp count s o small fits short =
      let n = count / sizeof_dirent in
      let dire = dirp + sizeof_dirent * n in
      let infos = dirs.listing s.world in
      let loop = getdents-read_entries fd i handle dirp count s o small (omega arith) in
      elim (Bool-cases (ltb (length infos) n)) [
        | inl few ↦
            let lt : length infos < n = ground arith in
            inr (lt, loop ∙ read_entries-end fw handle dirs dire n 0 infos s refl lt)
        | inr enough ↦
            let le : n ≤ length infos = ground arith in
            let (t, run, h) =
              read_entries-Entered fw handle dirs dire n 0 infos s refl le (omega arith) in
            let (same, bound) = total_length-AllShort n infos short in
            let sum : to_int ((0 + total_length (take n infos)) % 2 ^ 64)
                ≡ pos (sum_of_lengths (take n infos)) =
              to_int-small _ _ (omega arith) (omega arith) in
            inl (le, t, loop ∙ (run ∙ ap (λ (z : ℤ). ok z t) sum), h)
      ]
