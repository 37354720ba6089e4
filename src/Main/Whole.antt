-- ===== src/Main/Whole.antt =====
-- `main` of src/main.c as a whole.
use uefilinux.Base.{ℕ}
use uefilinux.Machine.{Machine, Command, ◌>>◌}
use uefilinux.Process.Texts.{codes}
use uefilinux.Getdelim.{Libc}
use uefilinux.Main.{Stdio, main_start, main_end}
use uefilinux.Main.Input.{main_line}
use uefilinux.Main.Picture.{Floats, main_picture}

module _ {W : Type 0} (fl : Floats) (io : Stdio W) (libc : Libc (Machine W)) where
  -- The loops run on fuel; `input_len` is what the program's variable of this name starts with.
  unfoldable pub main : ℕ → ℕ → Command W (Unit {0})
  main fuel input_len =
      main_start io
      >> (main_line io libc fuel input_len
          >> (io.puts (codes "Testing sleep() for 5 seconds...")
              >> (io.sleep 5
                  >> (io.puts (codes "Testing floating point maths...")
                      >> (main_picture fl io fuel >> (io.sleep 1 >> main_end io fuel))))))
