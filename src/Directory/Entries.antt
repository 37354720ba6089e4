-- ===== src/Directory/Entries.antt =====
-- Where `fd_getdents64` writes the entries of a directory.
use uefilinux.Base.{
  ℕ, zero, suc, ◌+◌, ◌*◌, ◌/◌, ◌%◌, ◌^◌, ◌<◌, ◌≡◌, refl, ◌∙◌, false, Option, none, some, length,
  ◌==◌, Bool-cases, inl, inr, ℤ, pos, to_int, to_u64, to_u32, arith,
}
use uefilinux.Efi.{Firmware, FileInfo}
use uefilinux.Machine.{Machine, Run, ok, fault, spin, Command, update}
use uefilinux.Machine.After.{After}
use uefilinux.Fd.Table.{IsOpen, find_fd-IsOpen}
use uefilinux.Directory.{
  sizeof_dirent, entry_count, record_length, dirent_of, enter, read_entries, fd_getdents64,
}

-- Only the entry at `dire` may differ, and the table is as before.
pub record OnlyEntry {W : Type 0} (dire : ℕ) (s t : Machine W) : Type 0 where
  pub others : (p : ℕ) → (p == dire) ≡ false → t.mem.dirents p ≡ s.mem.dirents p
  pub fds : t.fds ≡ s.fds
  pub bytes : t.mem.bytes ≡ s.mem.bytes

module _ {W : Type 0} where
  OnlyEntry-trans :
      (dire : ℕ) (s t : Machine W) (r : Run W ℤ)
      → OnlyEntry dire s t
      → After (OnlyEntry dire t) r
      → After (OnlyEntry dire s) r
  OnlyEntry-trans dire s t (ok a u) h k = record {
    others = λ p other. k.others p other ∙ h.others p other;
    fds = k.fds ∙ h.fds;
    bytes = k.bytes ∙ h.bytes;
  }
  OnlyEntry-trans dire s t fault h k = tt
  OnlyEntry-trans dire s t (spin u) h k = record {
    others = λ p other. k.others p other ∙ h.others p other;
    fds = k.fds ∙ h.fds;
    bytes = k.bytes ∙ h.bytes;
  }

  enter-OnlyEntry :
      (next : ℕ → Command W ℤ) (dire fres : ℕ) (read : Option FileInfo) (s : Machine W)
      → ((sum : ℕ) (t : Machine W) → After (OnlyEntry dire t) (next sum t))
      → After (OnlyEntry dire s) (enter next dire fres read s)
  unfolding enter update
  enter-OnlyEntry next dire fres none s go = tt
  enter-OnlyEntry next dire fres (some info) s go =
      OnlyEntry-trans dire s written (next sum written)
        (record { others = λ p other. rw other; fds = refl; bytes = refl }) (go sum written)
    where
      sum : ℕ
      sum = (fres + record_length (length info.file_name)) % 2 ^ 64

      written : Machine W
      written = record s {
        mem = record (s.mem) {
          dirents = update s.mem.dirents dire (dirent_of info (s.mem.dirents dire));
        };
      }

module _ {W : Type 0} (fw : Firmware W) where
  read_entries-OnlyEntry :
      (handle left dire fres : ℕ) (s : Machine W)
      → After (OnlyEntry dire s) (read_entries fw handle left dire fres s)
  unfolding read_entries
  read_entries-OnlyEntry handle zero dire fres s = record {
    others = λ p other. refl;
    fds = refl;
    bytes = refl;
  }
  read_entries-OnlyEntry handle (suc left) dire fres s =
      let ((status, read), w) = fw.read_directory handle s.world in
      elim (Bool-cases (fw.is_error (fw.read_directory handle s.world).0.0)) [
        | inl bad ↦ rw bad (record { others = λ p other. refl; fds = refl; bytes = refl })
        | inr good ↦ rw good (
            OnlyEntry-trans dire s (record s { world = w })
              (enter (λ sum. read_entries fw handle left dire sum) dire fres read
                (record s { world = w }))
              (record { others = λ p other. refl; fds = refl; bytes = refl })
              (enter-OnlyEntry (λ sum. read_entries fw handle left dire sum) dire fres read
                (record s { world = w }) λ sum t. read_entries-OnlyEntry handle left dire sum t))
      ]

  -- A count of whole entries of 24 bytes, as an `int`.
  pub entry_count_lem :
      (count : ℕ) → count < 2 ^ 31 → entry_count (pos count) ≡ pos (count / sizeof_dirent)
  unfolding entry_count to_int to_u64
  entry_count_lem count small = ground arith

  -- Whenever `fd_getdents64` of an open descriptor ends, with a count below 2 ^ 31 and a buffer
  -- inside the address space, the only entry that may have changed is the first one behind those
  -- that the buffer holds, and the descriptor table and the bytes are as before.
  pub getdents_past_end :
      (fd : ℤ) (i handle dirp count : ℕ) (s : Machine W)
      → IsOpen s.fds fd i handle
      → count < 2 ^ 31
      → dirp + count < 2 ^ 64
      → After
          (OnlyEntry (dirp + sizeof_dirent * (count / sizeof_dirent)) s)
          (fd_getdents64 fw fd dirp (pos count) s)
  unfolding fd_getdents64 to_u64
  getdents_past_end fd i handle dirp count s o small fits =
      let at : (dirp + sizeof_dirent * (count / sizeof_dirent % 2 ^ 64)) % 2 ^ 64
          ≡ dirp + sizeof_dirent * (count / sizeof_dirent) =
        omega arith in
      rw (find_fd-IsOpen s i handle o, entry_count_lem count small, at)
        (read_entries-OnlyEntry handle (to_u32 (pos (count / sizeof_dirent)))
          (dirp + sizeof_dirent * (count / sizeof_dirent)) 0 s)
