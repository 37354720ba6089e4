-- ===== src/Getdelim/Exact.antt =====
-- `my_getdelim` on a buffer of the caller's own with exactly `*out_size` bytes, which is what `getdelim`
-- asks of its caller.
use mathlib.Core.Option
use mathlib.Core.List.{append_assoc}
use uefilinux.Base.{
  ℕ, zero, suc, ◌+◌, ◌%◌, ◌^◌, ◌≤◌, ◌<◌, ◌≡◌, refl, ap, true, false, Option, some, List, [], ◌∷◌,
  ◌++◌, length, length-append, ltb, ◌==◌, if◌then◌else◌, arith,
}
use uefilinux.Getdelim.{
  Block, Libc, Outcome, overrun, store_out, grow, add_char, finish, round, getdelim_from,
  my_getdelim,
}
use uefilinux.Getdelim.Grow.{store_out-append}
use uefilinux.Getdelim.Line.{Delivers, Without}

module _ {S : Type 0} (libc : Libc S) where
  grow_kept :
      (b : Block) (size idx : ℕ)
      → idx + 1 ≤ size
      → size < 2 ^ 64
      → (grow libc b size idx).0 ≡ some b
  unfolding grow
  grow_kept b size idx fits small = ground arith

  grow_same :
      (b : Block) (size idx : ℕ) → idx + 1 ≤ size → size < 2 ^ 64 → (grow libc b size idx).1 ≡ size
  unfolding grow
  grow_same b size idx fits small = ground arith

  -- A round with room for the byte: the block does not grow.
  round_kept :
      (next : Block → ℕ → ℕ → S → Outcome S) (delim c : ℕ) (front back : Block) (x : Option ℕ)
      (size : ℕ) (s : S)
      → length front + 1 ≤ size
      → size < 2 ^ 64
      → round libc next delim (front ++ (x ∷ back)) size (length front) c s ≡ (
          let b = (front ++ (some c ∷ [])) ++ back in
          if c == delim % 2 ^ 8
          then finish libc b size (length (front ++ (some c ∷ []))) s
          else next b size (length (front ++ (some c ∷ []))) s)
  unfolding round add_char Option.bind
  round_kept next delim c front back x size s fits small =
      let longer : length (front ++ (some c ∷ [])) ≡ length front + 1 =
        length-append front (some c ∷ []) in
      let one : (length front + 1) % 2 ^ 64 ≡ length front + 1 = omega arith in
      let split : (front ++ (some c ∷ [])) ++ back ≡ front ++ (some c ∷ back) =
        append_assoc front (some c ∷ []) back in
      rw (
        round,
        grow_kept (front ++ (x ∷ back)) size (length front) fits small,
        store_out-append front back x c,
        grow_same (front ++ (x ∷ back)) size (length front) fits small,
        one,
        longer,
        split,
      )

  finish-overrun : (b : Block) (size : ℕ) (s : S) → finish libc b size (length b) s ≡ overrun
  unfolding finish store_out
  finish-overrun b size s =
      let out : ltb (length b) (length b) ≡ false = ground arith in rw (finish, out)

  getdelim_from-overrun :
      (fuel delim : ℕ) (line : List ℕ) (front back : Block) (size : ℕ) (s t : S)
      → length line < fuel
      → delim < 2 ^ 8
      → Without delim line
      → Delivers libc s (line ++ (delim ∷ [])) t
      → length (front ++ back) ≡ size
      → length front + length line + 1 ≡ size
      → size < 2 ^ 64
      → getdelim_from libc fuel delim (front ++ back) size (length front) s ≡ overrun
  unfolding getdelim_from
  getdelim_from-overrun zero delim line front back size s t more byte w d e exact small =
      absurd (omega arith)
  getdelim_from-overrun (suc fuel) delim line front [] size s t more byte w d e exact small =
      absurd (omega (arith, length-append front []))
  getdelim_from-overrun (suc fuel) delim [] front (x ∷ back) size s t more byte w (s', read, last) e
        exact small =
      let got : (libc.read_byte s).0 ≡ some delim = ap (λ (o : Option ℕ × S). o.0) read in
      let then_on : (libc.read_byte s).1 ≡ s' = ap (λ (o : Option ℕ × S). o.1) read in
      let longer : length (front ++ (some delim ∷ [])) ≡ length front + 1 =
        length-append front (some delim ∷ []) in
      let same : (delim == delim % 2 ^ 8) ≡ true = ground arith in
      let b = (front ++ (some delim ∷ [])) ++ back in
      let whole : length (front ++ (some delim ∷ [])) ≡ length b = omega (
        arith,
        longer,
        length-append (front ++ (some delim ∷ [])) back,
        length-append front (x ∷ back),
      ) in
      rw
        (
          getdelim_from,
          got,
          then_on,
          round_kept _ delim delim front back x size s' (omega arith) small,
          same,
          whole,
        )
        (finish-overrun b size s')
  getdelim_from-overrun (suc fuel) delim (c ∷ line) front (x ∷ back) size s t more byte (other, w)
        (s', read, d) e exact small =
      let got : (libc.read_byte s).0 ≡ some c = ap (λ (o : Option ℕ × S). o.0) read in
      let then_on : (libc.read_byte s).1 ≡ s' = ap (λ (o : Option ℕ × S). o.1) read in
      let longer : length (front ++ (some c ∷ [])) ≡ length front + 1 =
        length-append front (some c ∷ []) in
      let same : (c == delim % 2 ^ 8) ≡ false = ground arith in
      rw
        (
          getdelim_from,
          got,
          then_on,
          round_kept _ delim c front back x size s' (omega arith) small,
          same,
        )
        (getdelim_from-overrun fuel delim line (front ++ (some c ∷ [])) back size s' t (omega arith)
          byte w d
          (omega (
            arith,
            longer,
            length-append (front ++ (some c ∷ [])) back,
            length-append front (x ∷ back),
          ))
          (omega (arith, longer)) small)

  -- With fuel for one round more than the line has bytes, on a block of exactly `*out_size` bytes,
  -- a line that fills it with its delimiter makes `my_getdelim` write the terminator outside the
  -- block.
  pub my_getdelim_exact :
      (fuel delim : ℕ) (line : List ℕ) (b : Block) (s t : S)
      → length line < fuel
      → delim < 2 ^ 8
      → Without delim line
      → Delivers libc s (line ++ (delim ∷ [])) t
      → length b ≡ length line + 1
      → length b < 2 ^ 64
      → my_getdelim libc fuel (some b) (length b) delim s ≡ overrun
  unfolding my_getdelim
  my_getdelim_exact fuel delim line b s t more byte w d exact small =
      getdelim_from-overrun fuel delim line [] b (length b) s t more byte w d refl (omega arith)
        small
