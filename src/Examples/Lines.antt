-- ===== src/Examples/Lines.antt =====
-- Lines read by `my_getdelim` from a list of bytes.
use uefilinux.Base.{
  ℕ, ◌-◌, ◌≡◌, refl, Option, none, some, List, [], ◌∷◌, ◌++◌, length, length-append,
  length-replicate, replicate, arith,
}
use uefilinux.Getdelim.{Libc, overrun, my_getdelim}
use uefilinux.Getdelim.Grow.{Allocates}
use uefilinux.Getdelim.Line.{Delivers, Ends, my_getdelim_line}
use uefilinux.Getdelim.Eof.{Lost, my_getdelim_eof}
use uefilinux.Getdelim.Exact.{my_getdelim_exact}

-- The next byte of the input.
abbrev next_byte : List ℕ → Option ℕ × List ℕ
next_byte [] = (none, [])
next_byte (c ∷ cs) = (some c, cs)

abbrev libc : Libc (List ℕ)
libc = record {
  read_byte = next_byte;
  malloc = λ n. some (replicate n none);
  realloc = λ b n. some (b ++ replicate (n - length b) none);
}

libc-Allocates : Allocates libc
libc-Allocates = record {
  new = λ n. (replicate n none, refl, length-replicate n none);
  larger = λ b n le. (
    replicate (n - length b) none,
    refl,
    omega (
      arith,
      length-append b (replicate (n - length b) none),
      length-replicate {A = Option ℕ} (n - length b) none,
    ),
  );
}

abbrev input : List ℕ
input = b'a' ∷ b'b' ∷ b'\n' ∷ b'c' ∷ []

input-Delivers : Delivers libc input (b'a' ∷ b'b' ∷ b'\n' ∷ []) (b'c' ∷ [])
input-Delivers =
    (b'b' ∷ b'\n' ∷ b'c' ∷ [], refl, (b'\n' ∷ b'c' ∷ [], refl, (b'c' ∷ [], refl, refl)))

my_getdelim_line_example :
    Ends
      (my_getdelim libc 3 none 0 b'\n' input)
      4
      3
      (some b'a' ∷ some b'b' ∷ some b'\n' ∷ [])
      (b'c' ∷ [])
my_getdelim_line_example =
    my_getdelim_line libc libc-Allocates 3 b'\n' 0 3 none (b'a' ∷ b'b' ∷ []) input (b'c' ∷ []) tt
      (omega arith) (omega arith) (refl, (refl, tt)) input-Delivers (omega arith) (omega arith)
      (omega arith)

my_getdelim_exact_example : my_getdelim libc 3 (some (replicate 3 none)) 3 b'\n' input ≡ overrun
my_getdelim_exact_example =
    my_getdelim_exact libc 3 b'\n' (b'a' ∷ b'b' ∷ []) (replicate 3 none) input (b'c' ∷ [])
      (omega arith) (omega arith) (refl, (refl, tt)) input-Delivers refl (omega arith)

my_getdelim_eof_example : Lost (my_getdelim libc 2 none 0 b'\n' (b'c' ∷ [])) (some b'c' ∷ []) []
my_getdelim_eof_example =
    my_getdelim_eof libc libc-Allocates 2 b'\n' 0 none (b'c' ∷ []) (b'c' ∷ []) [] [] tt
      (omega arith) (omega arith) (refl, tt) ([], refl, refl) refl (omega arith)
