-- ===== src/UserImpl.antt =====
-- src/clibc-user-impl.c: what the C library asks of the platform, by nolibc's calls.
pub mod Print
use uefilinux.Base.{ℕ, ℤ, pos, negsuc, pos_part, leb, if◌then◌else◌}
use uefilinux.Machine.{Command, Memory, pure, undefined, get, put_mem, update, ◌>>=◌, ◌>>◌}

-- The calls of nolibc and `strlen`, which are not of this code: arguments of what follows. An address
-- is a number; the unused arguments of `mmap` are left out.
pub record Nolibc (W : Type 0) : Type 0 where
  pub write : ℤ → ℕ → ℕ → Command W ℤ
  pub read : ℤ → ℕ → ℕ → Command W ℤ
  pub mmap : ℕ → ℤ → Command W ℕ
  pub munmap : ℕ → ℕ → Command W ℤ
  pub strlen : ℕ → Command W ℕ

module _ {W : Type 0} (libc : Nolibc W) where
  -- `char c` at the address of the local variable
  unfoldable pub set_local : ℕ → ℕ → Command W (Unit {0})
  set_local local c = do s ← get; put_mem (record (s.mem) { bytes = update s.mem.bytes local c })

  unfoldable pub putchar : ℕ → ℕ → Command W (Unit {0})
  putchar local c = do set_local local c; n ← libc.write (pos 1) local 1; pure tt

  -- The result of `read` is not looked at: after an error, or the end of the input, the local variable
  -- is read unwritten.
  unfoldable pub getchar : ℕ → Command W ℕ
  getchar local = do
    n ← libc.read (pos 0) local 1
    s ← get
    if leb (pos_part n) 0 then undefined else pure (s.mem.bytes local)

  unfoldable pub puts : ℕ → ℕ → Command W (Unit {0})
  puts local str = do
    length ← libc.strlen str
    n ← libc.write (pos 1) str length
    putchar local b'\n'

  abbrev pub heap_init : Command W (Unit {0})
  heap_init = pure tt

  -- `size` is the number at the pointer; the mapping is anonymous, with the descriptor -1.
  unfoldable pub heap_alloc : ℕ → Command W ℕ
  heap_alloc size = libc.mmap size (negsuc 0)

  unfoldable pub heap_dealloc : ℕ → ℕ → Command W (Unit {0})
  heap_dealloc memptr size = do n ← libc.munmap memptr size; pure tt

  -- `get_mem_used`, `get_mem_total` and `get_mem_free` alike
  abbrev pub get_mem_used : Command W ℕ
  get_mem_used = pure 0
