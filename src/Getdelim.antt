-- ===== src/Getdelim.antt =====
-- include/getdelim.h: `my_getdelim` and `my_getline`.
pub mod Grow
pub mod Round
pub mod Line
pub mod Eof
pub mod Exact
use mathlib.Core.Option
use uefilinux.Base.{
  ℕ, zero, suc, ◌+◌, ◌%◌, ◌^◌, Option, none, some, List, length, set, ltb, ◌==◌, if◌then◌else◌, ℤ,
  pos, negsuc,
}

-- An allocated block by its contents; `none` is a byte that was not written.
abbrev pub Block : Type 0
Block = List (Option ℕ)

-- What the C library gives: `read(in, &c, 1)` with the byte that it leaves in `c`, `none` for a result
-- of 0 or less, over a state of its own; and the blocks of `malloc` and `realloc`, `none` for NULL.
pub record Libc (S : Type 0) : Type 0 where
  pub read_byte : S → Option ℕ × S
  pub malloc : ℕ → Option Block
  pub realloc : Block → ℕ → Option Block

-- What a call comes to: the result, the caller's `*out` and `*out_size`, and the library's state.
pub data Outcome (S : Type 0) : Type 0 where
  returned : ℤ → Option Block → ℕ → S → Outcome S
  overrun : Outcome S
  out_of_fuel : Outcome S

-- `(*out)[i] = c`; `none` outside the block.
unfoldable pub store_out : Block → ℕ → ℕ → Option Block
store_out b i c = if ltb i (length b) then some (set b i (some c)) else none

module _ {S : Type 0} (libc : Libc S) where
  -- One byte more where `*out_size` is too small: `*out` and `*out_size`.
  unfoldable pub grow : Block → ℕ → ℕ → Option Block × ℕ
  grow b size idx =
      if ltb size ((idx + 1) % 2 ^ 64)
      then (libc.realloc b (((size + 1) % 2 ^ 64 + 1) % 2 ^ 64), (size + 1) % 2 ^ 64)
      else (some b, size)

  -- The byte goes into the block.
  unfoldable pub add_char : Option Block → ℕ → ℕ → Option Block
  add_char b idx c = Option.bind b (λ b'. store_out b' idx c)

  -- The end of the call, and the round for the byte `c`: `next` goes on.
  unfoldable pub finish : Block → ℕ → ℕ → S → Outcome S
  finish b size idx s = elim (store_out b idx 0) [
    | none ↦ overrun
    | some b' ↦ returned (pos ((idx + 1) % 2 ^ 64)) (some b') size s
  ]

  unfoldable pub round : (Block → ℕ → ℕ → S → Outcome S) → ℕ → Block → ℕ → ℕ → ℕ → S → Outcome S
  round next delim b size idx c s =
      let (grown, size') = grow b size idx in
      elim (add_char grown idx c) [
        | none ↦ overrun
        | some b' ↦
            if c == delim % 2 ^ 8
            then finish b' size' ((idx + 1) % 2 ^ 64) s
            else next b' size' ((idx + 1) % 2 ^ 64) s
      ]

  -- The endless loop, on fuel.
  unfoldable pub getdelim_from : ℕ → ℕ → Block → ℕ → ℕ → S → Outcome S
  getdelim_from zero delim b size idx s = out_of_fuel
  getdelim_from (suc fuel) delim b size idx s =
      let (read, s') = libc.read_byte s in
      elim read [
        | none ↦ returned (negsuc 0) (some b) size s'
        | some c ↦
            round (λ b' size' idx' t. getdelim_from fuel delim b' size' idx' t) delim b size idx c
              s'
      ]

  -- A block from `malloc` where there was none. NULL from `malloc` is written to all the same, or left
  -- behind by a read that fails.
  unfoldable pub my_getdelim : ℕ → Option Block → ℕ → ℕ → S → Outcome S
  my_getdelim fuel (some b) size delim s = getdelim_from fuel delim b size 0 s
  my_getdelim fuel none size delim s = elim (libc.malloc 2) [
    | none ↦
        let (read, s') = libc.read_byte s in
        elim read [ none ↦ returned (negsuc 0) none 1 s' | some c ↦ overrun ]
    | some b ↦ getdelim_from fuel delim b 1 0 s
  ]

  unfoldable pub my_getline : ℕ → Option Block → ℕ → S → Outcome S
  my_getline fuel out size s = my_getdelim fuel out size b'\n' s
