-- ===== src/Main.antt =====
-- src/main.c: the demonstration program that is linked in as `main`; its first part and its last. Main/Input
-- and Main/Picture have the parts between, and Main/Whole puts them together.
pub mod Start
pub mod Input
pub mod Typed
pub mod Picture
pub mod Rows
pub mod Drawn
pub mod Whole
pub mod Quiet
pub mod Ends
use Prim.Native.String.{String}
use uefilinux.Base.{ℕ, zero, suc, ◌+◌, ◌-◌, List, [], ◌∷◌, ◌++◌, drop, ◌==◌, if◌then◌else◌, ℤ, pos}
use uefilinux.Machine.{Command, pure, forever, ◌>>=◌, ◌>>◌}
use uefilinux.Process.Texts.{codes}

-- The library calls of the program, which are not of this code: arguments of what follows. A text is a
-- literal of the program; `write` is handed the bytes from a place in a literal on, and their number;
-- `printf` prints numbers, `printf_text` the text at its argument.
pub record Stdio (W : Type 0) : Type 0 where
  pub puts : List ℕ → Command W (Unit {0})
  pub write : ℤ → List ℕ → ℕ → Command W ℤ
  pub perror : List ℕ → Command W (Unit {0})
  pub printf : List ℕ → List ℕ → Command W (Unit {0})
  pub printf_text : List ℕ → List ℕ → Command W (Unit {0})
  pub putchar : ℕ → Command W (Unit {0})
  pub sleep : ℕ → Command W (Unit {0})
  pub malloc : ℕ → Command W ℕ
  pub strcpy : ℕ → List ℕ → Command W (Unit {0})
  pub free : ℕ → Command W (Unit {0})
  pub getchar : Command W ℕ
  pub exit : ℤ → Command W (Unit {0})

abbrev pub hello : List ℕ
hello = codes "Hello world!" ++ (b'\n' ∷ [])

abbrev pub first_text : List ℕ
first_text = codes "Testing write() to stdout..."

module _ {W : Type 0} (io : Stdio W) where
  -- The first loop, with the rounds that are left.
  unfoldable pub write_loop : ℕ → ℕ → Command W (Unit {0})
  write_loop zero it = pure tt
  write_loop (suc left) it = do
    n ← io.write (pos 1) (drop it hello) (13 - it)
    write_loop left (it + 1)

  unfoldable pub printf_loop : ℕ → ℕ → Command W (Unit {0})
  printf_loop zero it = pure tt
  printf_loop (suc left) it = do io.printf (codes "it = %d! ") (it ∷ []); printf_loop left (it + 1)

  unfoldable pub main_start : Command W (Unit {0})
  main_start = do
    io.puts first_text
    write_loop 12 0
    io.puts (codes "Testing bad write()...")
    n ← io.write (pos 123456) (codes "Hi!") 3
    io.perror (codes "Error")
    io.puts (codes "Testing printf()...")
    printf_loop 16 0
    io.printf (b'\n' ∷ []) []
    io.puts (codes "Testing malloc()...")
    mbuf ← io.malloc 16
    io.strcpy mbuf (codes "Hello")
    io.puts (codes "Testing free()...")
    io.free mbuf

  -- `while (getchar() != '\n');` on fuel
  unfoldable pub wait_newline : ℕ → Command W (Unit {0})
  wait_newline zero = forever
  wait_newline (suc fuel) = io.getchar >>= λ c. if c == b'\n' then pure tt else wait_newline fuel

  unfoldable pub main_end : ℕ → Command W (Unit {0})
  main_end fuel = do io.puts (codes "Press return to exit."); wait_newline fuel; io.exit (pos 0)
