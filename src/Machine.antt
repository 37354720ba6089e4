-- ===== src/Machine.antt =====
-- The state that src/linux-uefi.c works on, and the commands that read and change it: its global
-- variables, the memory of the program that calls it, and the firmware's own state.
pub mod After
pub mod Slots
pub mod Keeps
pub mod Preserves
use uefilinux.Base.{
  ℕ, ◌≡◌, Bool, true, false, Option, none, some, List, get_elem?, set, ◌==◌, if◌then◌else◌,
}

-- `struct timeval`; its fields are 64-bit patterns.
pub record Timeval : Type 0 where
  pub tv_sec : ℕ
  pub tv_usec : ℕ

-- `struct stat` of include/linux-uefi.h, without its padding.
pub record Stat : Type 0 where
  pub st_dev : ℕ
  pub st_ino : ℕ
  pub st_nlink : ℕ
  pub st_mode : ℕ
  pub st_uid : ℕ
  pub st_gid : ℕ
  pub st_rdev : ℕ
  pub st_size : ℕ
  pub st_blksize : ℕ
  pub st_blocks : ℕ
  pub st_atim : ℕ × ℕ
  pub st_mtim : ℕ × ℕ
  pub st_ctim : ℕ × ℕ

-- `struct linux_dirent64`; the code leaves `d_type` alone.
pub record Dirent : Type 0 where
  pub d_ino : ℕ
  pub d_off : ℕ
  pub d_reclen : ℕ
  pub d_type : ℕ
  pub d_name : List ℕ

-- The caller's memory by the type of the object at an address: C forbids to read an object through
-- a pointer of another type. A byte is a number below 2 ^ 8; the code
-- only copies and compares bytes.
pub record Memory : Type 0 where
  pub bytes : ℕ → ℕ
  pub timevals : ℕ → Timeval
  pub stats : ℕ → Stat
  pub dirents : ℕ → Dirent

-- `fds` is the array of MAX_FDS handles, 0 for none; `fres` the static buffer of `bstr_to_wstr`.
pub record Machine (W : Type 0) : Type 0 where
  pub image : ℕ
  pub volume : ℕ
  pub fds : List ℕ
  pub fres : List ℕ
  pub mem : Memory
  pub world : W

-- `fault` is undefined behaviour (an access out of bounds, a read of what was never written), `spin`
-- an endless loop.
pub data Run (W : Type 0) (A : Type 0) : Type 0 where
  ok : A → Machine W → Run W A
  fault : Run W A
  spin : Machine W → Run W A

abbrev pub Command : Type 0 → Type 0 → Type 0
Command W A = Machine W → Run W A

module _ {W A : Type 0} where
  abbrev pub pure : A → Command W A
  pure a s = ok a s

  -- A firmware call.
  abbrev pub efi : (W → A × W) → Command W A
  efi f s = let (a, w) = f s.world in ok a (record s { world = w })

  abbrev pub undefined : Command W A
  undefined s = fault

  abbrev pub forever : Command W A
  forever s = spin s

module _ {W A B : Type 0} where
  abbrev pub and_then : Run W A → (A → Command W B) → Run W B
  and_then (ok a s) k = k a s
  and_then fault k = fault
  and_then (spin s) k = spin s

  infixl 5 ◌>>=◌ ◌>>◌
  abbrev pub ◌>>=◌ : Command W A → (A → Command W B) → Command W B
  m >>= k = λ s. and_then (m s) k

  abbrev pub ◌>>◌ : Command W A → Command W B → Command W B
  m >> n = m >>= λ _. n

module _ {W : Type 0} where
  -- A firmware call with no result.
  abbrev pub efi_void : (W → W) → Command W (Unit {0})
  efi_void f s = ok tt (record s { world = f s.world })

  -- `fds[i]`
  unfoldable pub load_fd : ℕ → Command W ℕ
  load_fd i s = elim (get_elem? s.fds i) [ none ↦ fault | some h ↦ ok h s ]

  -- `fds[i] = h`
  unfoldable pub store_fd : ℕ → ℕ → Command W (Unit {0})
  store_fd i h s = elim (get_elem? s.fds i) [
    | none ↦ fault
    | some _ ↦ ok tt (record s { fds = set s.fds i h })
  ]

  abbrev pub get : Command W (Machine W)
  get s = ok s s

  abbrev pub put_mem : Memory → Command W (Unit {0})
  put_mem m s = ok tt (record s { mem = m })

-- A function with one value changed.
unfoldable pub update {ℓ} : {A : Type ℓ} → (ℕ → A) → ℕ → A → ℕ → A
update f p v q = if q == p then v else f q
