-- ===== src/Console/Output.antt =====
-- What a write to standard output or error shows on the console.
use uefilinux.Base.{
  ℕ, zero, suc, ◌+◌, ◌*◌, ◌^◌, ◌≤◌, ◌<◌, ◌≡◌, ◌≢◌, refl, ap, Bool, true, false, ◌&&◌, ◌||◌, Option,
  none, some, List, [], ◌∷◌, length, ltb, ◌==◌, if◌then◌else◌, Bool-cases, inl, inr, pos, neg,
  to_long, arith,
}
use mathlib.Core.Option
use native.Mathlib.Numerals.{add-one}
use uefilinux.Efi.{Firmware}
use uefilinux.Errno.{efi_status_to_errno}
use uefilinux.Machine.{Machine, ok, fault, update}
use uefilinux.Fd.{max_fds}
use uefilinux.File.{load_bytes}
use uefilinux.Console.{
  CharBuffer, store_char, read_chars, console_text, show, console_write, fd_write,
}
use uefilinux.Console.Convert.{translate, Holds, Holds-update, convert-Ends}

-- Every character is one that the console shows.
abbrev NonZero : List ℕ → Type 0
NonZero [] = Unit {0}
NonZero (c ∷ cs) = (c ≢ 0) × NonZero cs

translate-NonZero : (cs : List ℕ) → NonZero (translate cs)
unfolding translate
translate-NonZero [] = tt
translate-NonZero (c ∷ cs) = ground (arith, translate-NonZero cs)

-- All bytes are line feeds.
abbrev pub only_newlines : List ℕ → Bool
only_newlines [] = true
only_newlines (c ∷ cs) = c == b'\n' && only_newlines cs

length-translate_le : (cs : List ℕ) → length (translate cs) ≤ length cs * 2
unfolding translate
length-translate_le [] = omega arith
length-translate_le (c ∷ cs) = ground (arith, length-translate_le cs)

length-translate_newlines :
    (cs : List ℕ) → only_newlines cs ≡ true → length (translate cs) ≡ length cs * 2
unfolding translate
length-translate_newlines [] h = refl
length-translate_newlines (c ∷ cs) h = ground (arith, length-translate_newlines cs)

length-translate_lt :
    (cs : List ℕ) → only_newlines cs ≡ false → length (translate cs) < length cs * 2
unfolding translate
length-translate_lt [] h = cc h
length-translate_lt (c ∷ cs) h = ground (arith, length-translate_lt cs, length-translate_le cs)

length-load_bytes : (src : ℕ → ℕ) (p count : ℕ) → length (load_bytes src p count) ≡ count
unfolding load_bytes
length-load_bytes src p zero = refl
length-load_bytes src p (suc count) = ap suc (length-load_bytes src (p + 1) count)

read_chars_lem :
    (fuel i : ℕ) (b : CharBuffer) (cs : List ℕ)
    → Holds b i cs
    → NonZero cs
    → b (i + length cs) ≡ some 0
    → length cs < fuel
    → read_chars fuel b i ≡ some cs
unfolding read_chars
read_chars_lem zero i b cs h n e lt = absurd (omega arith)
read_chars_lem (suc fuel) i b [] h n e lt =
    let at : i + 0 ≡ i = omega arith in
    let terminator : b i ≡ some 0 = rw at at e in rw (read_chars, terminator)
read_chars_lem (suc fuel) i b (c ∷ cs) h n e lt =
    let at : i + suc (length cs) ≡ i + 1 + length cs = omega arith in
    let some_char : (c == 0) ≡ false = ground (arith, n.0) in
    rw (
      read_chars,
      h.0,
      some_char,
      read_chars_lem fuel (i + 1) b cs h.1 n.1 (rw at at e) (omega arith),
    )

update_self : (b : CharBuffer) (j i : ℕ) (v : Option ℕ) → i ≡ j → update b j v i ≡ v
unfolding update
update_self b j i v e = ground arith

-- The text for `count` bytes: with a byte that is no line feed among them it is their translation;
-- with line feeds alone, or no byte, the terminator does not fit into the buffer.
pub console_text_lem :
    (src : ℕ → ℕ) (count : ℕ)
    → count < 2 ^ 31
    → console_text src count ≡ (
        if only_newlines (load_bytes src 0 count)
        then none
        else some (translate (load_bytes src 0 count)))
unfolding console_text store_char Option.bind
console_text_lem src count small =
    let all = load_bytes src 0 count in
    let r = convert-Ends src count count 0 (λ i. none) [] (omega arith) small (omega arith) tt in
    elim (Bool-cases (only_newlines all)) [
      | inl full ↦
          let out : ltb (length (translate all)) (count * 2) ≡ false =
            ground (arith, length-translate_newlines all, length-load_bytes src 0 count) in
          rw (full, console_text, add-one, r.ends, out)
      | inr fits ↦
          let inside : ltb (length (translate all)) (count * 2) ≡ true =
            ground (arith, length-translate_lt all, length-load_bytes src 0 count) in
          rw (fits, console_text, add-one, r.ends, inside)
            (read_chars_lem (count * 2) 0 (update r.buffer (length (translate all)) (some 0))
              (translate all)
              (Holds-update r.buffer 0 (length (translate all)) (some 0) (translate all)
                (omega arith) r.holds)
              (translate-NonZero all)
              (update_self r.buffer (length (translate all)) (0 + length (translate all)) (some 0)
                (omega arith))
              (ground arith))
    ]

load_bytes-shift :
    (m : ℕ → ℕ) (buf p count : ℕ)
    → load_bytes (λ it. m (buf + it)) p count ≡ load_bytes m (buf + p) count
unfolding load_bytes
load_bytes-shift m buf p zero = refl
load_bytes-shift m buf p (suc count) =
    let e : buf + (p + 1) ≡ buf + p + 1 = omega arith in
    rw (load_bytes-shift m buf (p + 1) count, e)

module _ {W : Type 0} (fw : Firmware W) (s : Machine W) where
  console_write_lem :
      (buf count : ℕ)
      → console_write fw buf count s
        ≡ show fw (console_text (λ it. s.mem.bytes (buf + it)) count) count s
  unfolding console_write
  console_write_lem buf count = refl

  -- A write of fewer than 2 ^ 31 bytes to descriptor 1 or 2 shows them with every NUL dropped and a
  -- return before each line feed, and returns the count or the error of the firmware's status, if a
  -- byte is no line feed; with line feeds alone, or no byte, the terminator is written outside
  -- `str_buf`.
  pub fd_write_console :
      (n buf count : ℕ)
      → (n == 1 || n == 2) ≡ true
      → count < 2 ^ 31
      → (let bytes = load_bytes s.mem.bytes buf count in
          let (status, w) = fw.output_string (translate bytes) s.world in
          fd_write fw (pos n) buf count s ≡ (
            if only_newlines bytes
            then fault
            else ok
                (if fw.is_error status then neg (efi_status_to_errno fw status) else to_long count)
                (record s { world = w })))
  unfolding fd_write show
  fd_write_console n buf count console small =
      let src : ℕ → ℕ = λ it. s.mem.bytes (buf + it) in
      let start : buf + 0 ≡ buf = omega arith in
      let small_fd : ltb max_fds n ≡ false = ground arith in
      let bytes : load_bytes src 0 count ≡ load_bytes s.mem.bytes buf count =
        rw start at (load_bytes-shift s.mem.bytes buf 0 count) in
      elim (Bool-cases (only_newlines (load_bytes s.mem.bytes buf count))) [
        | inl full ↦ rw (
          small_fd,
          console,
          console_write_lem buf count,
          console_text_lem src count small,
          bytes,
          full,
        )
        | inr fits ↦
            rw
              (
                small_fd,
                console,
                console_write_lem buf count,
                console_text_lem src count small,
                bytes,
                fits,
              )
              (ground arith)
      ]
