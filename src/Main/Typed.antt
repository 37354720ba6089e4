-- ===== src/Main/Typed.antt =====
-- What `main` of src/main.c prints of a line that is typed in.
use uefilinux.Base.{
  ℕ, ◌+◌, ◌-◌, ◌%◌, ◌^◌, ◌<◌, ◌≡◌, refl, sym, ap, ◌∙◌, Option, none, some, List, [], ◌∷◌, ◌++◌, map,
  length, length-append, length-map, arith,
}
use uefilinux.Machine.{Machine, ok}
use uefilinux.Process.Texts.{codes}
use uefilinux.Getdelim.{Block, Libc, Outcome, my_getdelim, my_getline}
use uefilinux.Getdelim.Grow.{Allocates, store_out-append}
use uefilinux.Getdelim.Line.{Delivers, Without, Ends, my_getdelim_line}
use uefilinux.Main.{Stdio}
use uefilinux.Main.Input.{text_of, prompt, typed, print_text, print_block, show_line, main_line}

text_of-append :
    (line : List ℕ) (back : Block)
    → Without 0 line
    → text_of (map some line ++ (some 0 ∷ back)) ≡ some line
unfolding text_of
text_of-append [] back w = refl
text_of-append (c ∷ line) back (other, w) = rw (text_of, other, text_of-append line back w)

map-append :
    (line : List ℕ) (c : ℕ) (back : Block)
    → map some (line ++ (c ∷ [])) ++ back ≡ map some line ++ (some c ∷ back)
map-append [] c back = refl
map-append (x ∷ line) c back = ap (λ (b : Block). some x ∷ b) (map-append line c back)

module _ {W : Type 0} (io : Stdio W) where
  show_line_lem :
      (line : List ℕ) (r : Outcome (Machine W)) (s t : Machine W)
      → Without 0 line
      → length line + 1 < 2 ^ 64
      → Ends r (length line + 2) (length line + 1) (map some (line ++ (b'\n' ∷ []))) t
      → show_line io s r ≡ io.printf_text typed line t
  unfolding show_line print_block print_text
  show_line_lem line r s t w small e =
      let bytes = map some (line ++ (b'\n' ∷ [])) in
      let many : length bytes ≡ length line + 1 =
        length-map (line ++ (b'\n' ∷ [])) some ∙ length-append line (b'\n' ∷ []) in
      let whole : length bytes + length (some 0 ∷ e.rest) ≡ e.size + 1 =
        sym (length-append bytes (some 0 ∷ e.rest)) ∙ e.sized in
      let limited = e.limited in
      let same : length (map {A = ℕ} {B = Option ℕ} some line) ≡ length line =
        length-map line some in
      let last : (e.size + (2 ^ 64 - 1)) % 2 ^ 64 ≡ length (map {A = ℕ} {B = Option ℕ} some line) =
        omega arith in
      rw (
        e.result,
        show_line,
        map-append line b'\n' (some 0 ∷ e.rest),
        last,
        store_out-append (map some line) (some 0 ∷ e.rest) (some b'\n') 0,
        print_block,
        text_of-append line (some 0 ∷ e.rest) w,
        print_text,
      )

  -- Where the library allocates, the prompt is printed, and the reads then deliver a line without
  -- NUL and its line feed: with more fuel than the line has bytes, `main` prints the text of
  -- exactly that line, whatever value its variable `input_len` starts with.
  pub main_line_lem :
      (libc : Libc (Machine W)) (fuel input_len : ℕ) (line : List ℕ) (s s1 s2 t : Machine W)
      → Allocates libc
      → io.puts (codes "Testing getline() from stdin...") s ≡ ok tt s1
      → io.printf prompt [] s1 ≡ ok tt s2
      → Delivers libc s2 (line ++ (b'\n' ∷ [])) t
      → Without b'\n' line
      → Without 0 line
      → length line < fuel
      → length line + 5 < 2 ^ 64
      → main_line io libc fuel input_len s ≡ io.printf_text typed line t
  unfolding main_line my_getline
  main_line_lem libc fuel input_len line s s1 s2 t a shown asked d w text more small =
      rw (main_line, shown, asked)
        (show_line_lem line (my_getdelim libc fuel none input_len b'\n' s2) s2 t text (omega arith)
          (my_getdelim_line libc a fuel b'\n' input_len (length line + 1) none line s2 t tt more
            (omega arith) w d (omega arith) (omega arith) (omega arith)))
