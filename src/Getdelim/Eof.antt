-- ===== src/Getdelim/Eof.antt =====
-- `my_getdelim` on an input that ends without the delimiter.
use mathlib.Core.List.{append_assoc}
use uefilinux.Base.{
  ℕ, zero, suc, ◌+◌, ◌^◌, ◌≤◌, ◌<◌, ◌≡◌, refl, ap, ◌∙◌, Option, none, some, List, [], ◌∷◌, ◌++◌,
  map, length, negsuc, arith,
}
use uefilinux.Getdelim.{Block, Libc, Outcome, returned, getdelim_from, my_getdelim}
use uefilinux.Getdelim.Grow.{Allocates}
use uefilinux.Getdelim.Round.{Goes, getdelim_from-Goes}
use uefilinux.Getdelim.Line.{Delivers, Without, Sized, first_size}

-- The call returned -1, and the block starts with the bytes.
pub record Lost {S : Type 0} (r : Outcome S) (bytes : Block) (t : S) : Type 0 where
  pub rest : Block
  pub size : ℕ
  pub result : r ≡ returned (negsuc 0) (some (bytes ++ rest)) size t

append-nil : (b : Block) → b ++ [] ≡ b
append-nil [] = refl
append-nil (x ∷ b) = ap (λ (l : Block). x ∷ l) (append-nil b)

module _ {S : Type 0} (libc : Libc S) (a : Allocates libc) where
  getdelim_from-Lost :
      (fuel delim : ℕ) (line : List ℕ) (front back : Block) (size : ℕ) (s t u : S)
      → length line < fuel
      → delim < 2 ^ 8
      → Without delim line
      → Delivers libc s line t
      → libc.read_byte t ≡ (none, u)
      → length (front ++ back) ≡ size + 1
      → length front ≤ size
      → size + length line + 3 < 2 ^ 64
      → Lost
          (getdelim_from libc fuel delim (front ++ back) size (length front) s)
          (front ++ map some line)
          u
  unfolding getdelim_from
  getdelim_from-Lost zero delim line front back size s t u more byte w d end e le small =
      absurd (omega arith)
  getdelim_from-Lost (suc fuel) delim [] front back size s t u more byte w d end e le small =
      let read : libc.read_byte s ≡ (none, u) = ap libc.read_byte d ∙ end in
      let got : (libc.read_byte s).0 ≡ none = ap (λ (o : Option ℕ × S). o.0) read in
      let then_on : (libc.read_byte s).1 ≡ u = ap (λ (o : Option ℕ × S). o.1) read in
      record {
        rest = back;
        size = size;
        result = rw (getdelim_from, got, then_on, append-nil front);
      }
  getdelim_from-Lost (suc fuel) delim (c ∷ line) front back size s t u more byte (other, w)
        (s', read, d) end e le small =
      let g : Goes libc a
          (getdelim_from libc (suc fuel) delim (front ++ back) size (length front) s) fuel delim
          (front ++ (some c ∷ [])) size s' =
        getdelim_from-Goes libc a fuel delim c front back size s s' byte other read e le
          (omega arith) in
      let joined : (front ++ (some c ∷ [])) ++ map some line ≡ front ++ (some c ∷ map some line) =
        append_assoc front (some c ∷ []) (map some line) in
      rw (g.on, ← joined)
        (getdelim_from-Lost fuel delim line (front ++ (some c ∷ [])) g.back g.size' s' t u
          (omega arith) byte w d end g.sized g.fits (omega (arith, g.up)))

  -- Where the library allocates and its reads deliver bytes without the delimiter and then fail,
  -- with fuel for one round more than there are bytes: `my_getdelim` returns -1 although the
  -- caller's block starts with the bytes; this from NULL, and from a block of `*out_size` + 1
  -- bytes.
  pub my_getdelim_eof :
      (fuel delim size : ℕ) (out : Option Block) (line : List ℕ) (s t u : S)
      → Sized out size
      → length line < fuel
      → delim < 2 ^ 8
      → Without delim line
      → Delivers libc s line t
      → libc.read_byte t ≡ (none, u)
      → first_size out size + length line + 4 < 2 ^ 64
      → Lost (my_getdelim libc fuel out size delim s) (map some line) u
  unfolding my_getdelim
  my_getdelim_eof fuel delim size none line s t u sized more byte w d end small =
      let (b, given, two) = a.new 2 in
      rw (my_getdelim, given)
        (getdelim_from-Lost fuel delim line [] b 1 s t u more byte w d end (omega arith)
          (omega arith) (omega arith))
  my_getdelim_eof fuel delim size (some b) line s t u sized more byte w d end small =
      getdelim_from-Lost fuel delim line [] b size s t u more byte w d end sized (omega arith)
        (omega arith)
