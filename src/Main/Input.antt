-- ===== src/Main/Input.antt =====
-- The line that `main` of src/main.c reads and prints.
use uefilinux.Base.{
  ℕ, ◌+◌, ◌-◌, ◌%◌, ◌^◌, Option, none, some, List, [], ◌∷◌, ◌++◌, ◌==◌, if◌then◌else◌,
}
use uefilinux.Machine.{Machine, Run, fault, spin, Command, undefined, ◌>>◌}
use uefilinux.Process.Texts.{codes}
use uefilinux.Getdelim.{Block, Libc, Outcome, returned, overrun, out_of_fuel, store_out, my_getline}
use uefilinux.Main.{Stdio}

-- The text of a C string; `none` for one that runs into a byte that was not written, or has no end.
unfoldable pub text_of : Block → Option (List ℕ)
text_of [] = none
text_of (none ∷ b) = none
text_of (some c ∷ b) =
    let rest = text_of b in
    if c == 0 then some [] else elim rest [ none ↦ none | some text ↦ some (c ∷ text) ]

abbrev pub prompt : List ℕ
prompt = codes "Type something in: "

abbrev pub typed : List ℕ
typed = codes "You typed in '%s'" ++ (b'\n' ∷ [])

module _ {W : Type 0} (io : Stdio W) where
  unfoldable pub print_text : Option (List ℕ) → Command W (Unit {0})
  print_text none = undefined
  print_text (some text) = io.printf_text typed text

  unfoldable pub print_block : Option Block → Command W (Unit {0})
  print_block none = undefined
  print_block (some b) = print_text (text_of b)

  -- `input_buf[input_len-1] = '\0'` and the `printf` behind it; a call that runs out of fuel from the
  -- state `s` goes on.
  unfoldable pub show_line : Machine W → Outcome (Machine W) → Run W (Unit {0})
  show_line s (returned r none size t) = fault
  show_line s (returned r (some b) size t) =
      print_block (store_out b ((size + (2 ^ 64 - 1)) % 2 ^ 64) 0) t
  show_line s overrun = fault
  show_line s out_of_fuel = spin s

  -- The value that `input_len` starts with is left open by the program.
  unfoldable pub main_line : Libc (Machine W) → ℕ → ℕ → Command W (Unit {0})
  main_line libc fuel input_len =
      io.puts (codes "Testing getline() from stdin...")
      >> (io.printf prompt [] >> λ s. show_line s (my_getline libc fuel none input_len s))
