-- ===== src/Examples/Shelves.antt =====
-- A firmware whose directory has two entries.
use uefilinux.Base.{
  ℕ, zero, suc, ◌≤◌, ◌<◌, ◌≡◌, ◌⊎◌, refl, none, some, Option, List, [], ◌∷◌, length, take, drop,
  pos, arith,
}
use uefilinux.Efi.{Firmware, FileInfo}
use uefilinux.Machine.{Machine, ok, fault}
use uefilinux.Directory.{fd_getdents64}
use uefilinux.Directory.Listing.{HasListing, sum_of_lengths, Entered, getdents_lem}
use uefilinux.Examples.Machines.{firmware, notes, shared}
use uefilinux.Examples.Slots.{IsOpen-5}

-- The state is the number of entries that were read.
abbrev unread : ℕ → List FileInfo
unread zero = notes ∷ notes ∷ []
unread (suc zero) = notes ∷ []
unread (suc (suc w)) = []

abbrev first_of : List FileInfo → Option FileInfo
first_of [] = none
first_of (info ∷ rest) = some info

abbrev shelf : Firmware ℕ
shelf = record firmware { read_directory = λ h w. ((0, first_of (unread w)), suc w) }

shelf_next :
    (info : FileInfo) (rest : List FileInfo) (w : ℕ)
    → unread w ≡ info ∷ rest
    → (first_of (unread w) ≡ some info) × (unread (suc w) ≡ rest)
shelf_next info rest zero e = (cc e, cc e)
shelf_next info rest (suc zero) e = (cc e, cc e)
shelf_next info rest (suc (suc w)) e = cc e

abbrev shelf-HasListing : HasListing shelf 7
shelf-HasListing = record {
  listing = λ w. unread w;
  good = λ w. refl;
  next = λ info rest w e. shelf_next info rest w e;
  end = λ w e. rw e refl;
}

getdents_lem_example :
    ((2 ≤ length (unread 0))
      × (t : Machine ℕ) × (fd_getdents64 shelf (pos 5) 1000 (pos 60) shared
          ≡ ok (pos (sum_of_lengths (take 2 (unread 0)))) t)
      × Entered shelf 7 shelf-HasListing 1048 (take 2 (unread 0)) (drop 2 (unread 0)) shared t)
    ⊎ ((length (unread 0) < 2) × (fd_getdents64 shelf (pos 5) 1000 (pos 60) shared ≡ fault))
getdents_lem_example =
    getdents_lem shelf 7 shelf-HasListing (pos 5) 1 1000 60 shared IsOpen-5 (omega arith)
      (omega arith) (omega arith, (omega arith, tt))
