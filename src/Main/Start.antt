-- ===== src/Main/Start.antt =====
-- The first lines of `main` of src/main.c over the emulated system calls.
use uefilinux.Base.{ℕ, ◌≡◌, List, length}
use uefilinux.Machine.{Machine, ok}
use uefilinux.UserImpl.{Nolibc, puts}
use uefilinux.Main.{Stdio}

-- The C library's `puts` is the platform's `_puts` on the literal's address, and `strlen` counts the
-- literal's characters.
pub record PutsByPlatform {W : Type 0} (libc : Nolibc W) (io : Stdio W) : Type 0 where
  pub local : ℕ
  pub address : List ℕ → ℕ
  pub puts_is : (text : List ℕ) (s : Machine W) → io.puts text s ≡ puts libc local (address text) s
  pub length_is :
      (text : List ℕ) (s : Machine W) → libc.strlen (address text) s ≡ ok (length text) s
