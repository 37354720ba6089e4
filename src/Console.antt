-- ===== src/Console.antt =====
-- Standard output and input: the console branches of `fd_write` and `fd_read` of src/linux-uefi.c.
pub mod Convert
pub mod Output
pub mod Input
pub mod Keyboard
pub mod Line
use uefilinux.Base.{
  ℕ, zero, suc, ◌+◌, ◌-◌, ◌*◌, ◌%◌, ◌^◌, ◌≡◌, Bool, true, false, ◌&&◌, ◌||◌, Option, none, some,
  List, [], ◌∷◌, ltb, ◌==◌, if◌then◌else◌, ℤ, pos, negsuc, neg, to_long,
}
use mathlib.Core.Option
use uefilinux.Efi.{Firmware}
use uefilinux.Errno.{ebadf, efi_status_to_errno}
use uefilinux.Machine.{
  Machine, Command, pure, efi, efi_void, undefined, forever, get, put_mem, update, ◌>>=◌, ◌>>◌,
}
use uefilinux.Fd.{max_fds}
use uefilinux.File.{read_file, write_file}

-- `str_buf`, of `count * 2` characters; `none` is one that was not written.
abbrev pub CharBuffer : Type 0
CharBuffer = ℕ → Option ℕ

-- `str_buf[i] = c`; `none` outside the buffer.
unfoldable pub store_char : ℕ → ℕ → ℕ → CharBuffer → Option CharBuffer
store_char count i c b = if ltb i (count * 2) then some (update b i (some c)) else none

-- One round of the loop: the new `str_it`, after its increment, and the buffer. The counters are
-- 32-bit.
unfoldable pub put_char : ℕ → ℕ → ℕ → CharBuffer → Option (ℕ × CharBuffer)
put_char count c str_it b =
    if c == 0
    then some (((str_it + 2 ^ 32 - 1) % 2 ^ 32 + 1) % 2 ^ 32, b)
    else if c == b'\n'
    then Option.bind (store_char count str_it b'\r' b) (λ b'.
      let next = (str_it + 1) % 2 ^ 32 in
      Option.map (λ b''. ((next + 1) % 2 ^ 32, b'')) (store_char count next b'\n' b'))
    else Option.map (λ b'. ((str_it + 1) % 2 ^ 32, b')) (store_char count str_it c b)

pub data Converted : Type 0 where
  converted : ℕ → CharBuffer → Converted
  overrun out_of_fuel : Converted

-- The loop over the caller's bytes, on fuel.
unfoldable pub convert : ℕ → (ℕ → ℕ) → ℕ → ℕ → ℕ → CharBuffer → Converted
convert zero src count it str_it b = out_of_fuel
convert (suc fuel) src count it str_it b = elim (it == count) [
  | true ↦ converted str_it b
  | false ↦ elim (put_char count (src it) str_it b) [
    | none ↦ overrun
    | some (str_it', b') ↦ convert fuel src count ((it + 1) % 2 ^ 32) str_it' b'
  ]
]

-- The string that the firmware reads from the buffer, up to the terminator.
unfoldable pub read_chars : ℕ → CharBuffer → ℕ → Option (List ℕ)
read_chars zero b i = none
read_chars (suc fuel) b i = elim (b i) [
  | none ↦ none
  | some c ↦ elim (c == 0) [
    | true ↦ some []
    | false ↦ Option.map (λ l. c ∷ l) (read_chars fuel b (i + 1))
  ]
]

-- The whole of `str_buf`, its terminator included.
unfoldable pub console_text : (ℕ → ℕ) → ℕ → Option (List ℕ)
console_text src count = elim (convert (count + 1) src count 0 0 (λ i. none)) [
  | overrun ↦ none
  | out_of_fuel ↦ none
  | converted str_it b ↦
      Option.bind (store_char count str_it 0 b) (λ b'. read_chars (count * 2) b' 0)
]

module _ {W : Type 0} (fw : Firmware W) where
  -- The text goes to the console; `none` is undefined behaviour while it was made.
  unfoldable pub show : Option (List ℕ) → ℕ → Command W ℤ
  show none count = undefined
  show (some text) count = do
    status ← efi (fw.output_string text)
    if fw.is_error status then pure (neg (efi_status_to_errno fw status)) else pure (to_long count)

  unfoldable pub console_write : ℕ → ℕ → Command W ℤ
  console_write buf count = do
    s ← get
    show (console_text (λ it. s.mem.bytes (buf + it)) count) count

  unfoldable pub fd_write : ℤ → ℕ → ℕ → Command W ℤ
  fd_write (negsuc n) buf count = write_file fw (negsuc n) buf count
  fd_write (pos n) buf count =
      if ltb max_fds n
      then pure (neg ebadf)
      else if n == 1 || n == 2
      then console_write buf count
      else write_file fw (pos n) buf count

  -- A string of one character, as the firmware reads it.
  abbrev char_string : ℕ → List ℕ
  char_string c = if c == 0 then [] else c ∷ []

  -- Printing a key: a return is followed by a line feed.
  unfoldable pub echo : ℕ → Command W (Unit {0})
  echo key = efi (fw.output_string (char_string key)) >>= λ status.
      if key % 256 == b'\r'
      then (do status' ← efi (fw.output_string (b'\n' ∷ [])); pure tt)
      else pure tt

  -- What the loop stores for a key.
  abbrev pub key_char : ℕ → ℕ
  key_char key = if key % 256 == b'\r' then b'\n' else key % 256

  -- One round up to the key.
  unfoldable pub wait_key : Command W (Option ℕ)
  wait_key = do status ← efi (fw.stall 1000); efi_void fw.wait_for_key; efi fw.read_key_stroke

  unfoldable pub store_key : ℕ → ℕ → Command W (Unit {0})
  store_key p c = do s ← get; put_mem (record (s.mem) { bytes = update s.mem.bytes p c })

  -- The round for a key: `next` goes on with the next index. A backspace as the first key is passed
  -- over, with the index incremented like after any other.
  unfoldable pub take_key : (ℕ → Command W ℤ) → ℕ → ℕ → Option ℕ → Command W ℤ
  take_key next buf it none = undefined
  take_key next buf it (some key) =
      if it == 0 && key % 256 == 8 then next ((it + 1) % 2 ^ 32) else do
        echo key
        store_key (buf + it) (key_char key)
        if key_char key == b'\n' then pure (pos ((it + 1) % 2 ^ 32)) else next ((it + 1) % 2 ^ 32)

  -- The loop over the keys, on fuel, with the caller's `buf`. `fd_read` gives it count + 1 rounds,
  -- which are enough for a `count` below 2 ^ 32; for a larger one the counter `it` never reaches
  -- `count`, and the code may go round for longer until a line ends.
  unfoldable pub read_keys : ℕ → ℕ → ℕ → ℕ → Command W ℤ
  read_keys zero buf count it = forever
  read_keys (suc fuel) buf count it = elim (it == count) [
    | true ↦ pure (pos ((it + 1) % 2 ^ 32))
    | false ↦ do k ← wait_key; take_key (λ it'. read_keys fuel buf count it') buf it k
  ]

  unfoldable pub fd_read : ℤ → ℕ → ℕ → Command W ℤ
  fd_read (negsuc n) buf count = read_file fw (negsuc n) buf count
  fd_read (pos n) buf count =
      if ltb max_fds n
      then pure (neg ebadf)
      else if n == 0
      then read_keys (count + 1) buf count 0
      else read_file fw (pos n) buf count
