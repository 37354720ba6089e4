-- ===== src/Getdelim/Line.antt =====
-- What `my_getdelim` makes of a line.
use mathlib.Core.List.{append_assoc}
use uefilinux.Base.{
  ℕ, zero, suc, ◌+◌, ◌%◌, ◌^◌, ◌≤◌, ◌<◌, ◌≡◌, ap, true, false, Option, none, some, List, [], ◌∷◌,
  ◌++◌, map, length, length-append, ◌==◌, pos, arith,
}
use uefilinux.Getdelim.{Block, Libc, Outcome, returned, grow, finish, getdelim_from, my_getdelim}
use uefilinux.Getdelim.Round.{Goes, getdelim_from-Goes}
use uefilinux.Getdelim.Grow.{Allocates, Room, store_out-append, grow-Room, grow_limit, round_lem}

-- The library's reads deliver these bytes one after the other, up to the state `t`.
abbrev pub Delivers : {S : Type 0} → Libc S → S → List ℕ → S → Type 0
Delivers libc s [] t = s ≡ t
Delivers {S} libc s (c ∷ cs) t =
    (s' : S) × (libc.read_byte s ≡ (some c, s')) × Delivers libc s' cs t

-- No byte of the line is the delimiter.
abbrev pub Without : ℕ → List ℕ → Type 0
Without d [] = Unit {0}
Without d (c ∷ cs) = ((c == d) ≡ false) × Without d cs

-- The caller's block, if there is one, has room for `*out_size` bytes and a terminator.
abbrev pub Sized : Option Block → ℕ → Type 0
Sized none size = Unit {0}
Sized (some b) size = length b ≡ size + 1

-- `*out_size` as the call finds it; it is 1 where the call allocates the block.
abbrev pub first_size : Option Block → ℕ → ℕ
first_size none size = 1
first_size (some b) size = size

-- The call returned `n`, the block starts with the bytes and a terminator, and `*out_size` is at most
-- the limit.
pub record Ends {S : Type 0} (r : Outcome S) (n limit : ℕ) (bytes : Block) (t : S) : Type 0 where
  pub rest : Block
  pub size : ℕ
  pub result : r ≡ returned (pos n) (some (bytes ++ (some 0 ∷ rest))) size t
  pub sized : length (bytes ++ (some 0 ∷ rest)) ≡ size + 1
  pub limited : size ≤ limit

module _ {S : Type 0} (libc : Libc S) (a : Allocates libc) where
  finish_lem :
      (front back : Block) (y : Option ℕ) (size limit : ℕ) (s : S)
      → length front + 1 < 2 ^ 64
      → length (front ++ (y ∷ back)) ≡ size + 1
      → size ≤ limit
      → Ends
          (finish libc (front ++ (y ∷ back)) size (length front) s)
          (length front + 1)
          limit
          front
          s
  unfolding finish
  finish_lem front back y size limit s small e l =
      let one : (length front + 1) % 2 ^ 64 ≡ length front + 1 = omega arith in
      record {
        rest = back;
        size = size;
        result = rw (finish, store_out-append front back y 0, one);
        sized =
            omega (arith, e, length-append front (y ∷ back), length-append front (some 0 ∷ back));
        limited = l;
      }

  -- The loop over a line and its delimiter, from what the block holds so far.
  getdelim_from-Ends :
      (fuel delim : ℕ) (line : List ℕ) (front back : Block) (size limit : ℕ) (s t : S)
      → length line < fuel
      → delim < 2 ^ 8
      → Without delim line
      → Delivers libc s (line ++ (delim ∷ [])) t
      → length (front ++ back) ≡ size + 1
      → length front ≤ size
      → size + length line + 3 < 2 ^ 64
      → size ≤ limit
      → length front + length line + 1 ≤ limit
      → Ends
          (getdelim_from libc fuel delim (front ++ back) size (length front) s)
          (length front + length line + 2)
          limit
          (front ++ map some (line ++ (delim ∷ [])))
          t
  unfolding getdelim_from
  getdelim_from-Ends zero delim line front back size limit s t more byte w d e le small l k =
      absurd (omega arith)
  getdelim_from-Ends (suc fuel) delim [] front back size limit s t more byte w (s', read, last) e le
        small l k =
      let r : Room libc a front (grow libc (front ++ back) size (length front)) =
        grow-Room libc a front back size e le (omega arith) in
      let longer : length (front ++ (some delim ∷ [])) ≡ length front + 1 =
        length-append front (some delim ∷ []) in
      let size' = (grow libc (front ++ back) size (length front)).1 in
      let full : length ((front ++ (some delim ∷ [])) ++ (r.y ∷ r.back)) ≡ size' + 1 = omega (
        arith,
        r.sized,
        longer,
        length-append (front ++ (some delim ∷ [])) (r.y ∷ r.back),
        length-append front (r.x ∷ r.y ∷ r.back),
      ) in
      let same : (delim == delim % 2 ^ 8) ≡ true = ground arith in
      let sum : length front + 0 + 2 ≡ length (front ++ (some delim ∷ [])) + 1 =
        omega (arith, longer) in
      let got : (libc.read_byte s).0 ≡ some delim = ap (λ (o : Option ℕ × S). o.0) read in
      let then_on : (libc.read_byte s).1 ≡ s' = ap (λ (o : Option ℕ × S). o.1) read in
      rw
        (
          getdelim_from,
          got,
          then_on,
          round_lem libc a _ delim delim front back size s' r (omega arith),
          same,
          sum,
          ← last,
        )
        (finish_lem (front ++ (some delim ∷ [])) r.back r.y size' limit s' (omega (arith, longer))
          full
          (grow_limit libc a (front ++ back) size (length front) limit l (omega arith)
            (omega arith)))
  getdelim_from-Ends (suc fuel) delim (c ∷ line) front back size limit s t more byte (other, w)
        (s', read, d) e le small l k =
      let here = getdelim_from libc (suc fuel) delim (front ++ back) size (length front) s in
      let g : Goes libc a here fuel delim (front ++ (some c ∷ [])) size s' =
        getdelim_from-Goes libc a fuel delim c front back size s s' byte other read e le
          (omega arith) in
      let longer : length (front ++ (some c ∷ [])) ≡ length front + 1 =
        length-append front (some c ∷ []) in
      let sum : length front + suc (length line) + 2
          ≡ length (front ++ (some c ∷ [])) + length line + 2 =
        omega (arith, longer) in
      let joined : (front ++ (some c ∷ [])) ++ map some (line ++ (delim ∷ []))
          ≡ front ++ (some c ∷ map some (line ++ (delim ∷ []))) =
        append_assoc front (some c ∷ []) (map some (line ++ (delim ∷ []))) in
      rw (g.on, sum, ← joined)
        (getdelim_from-Ends fuel delim line (front ++ (some c ∷ [])) g.back g.size' limit s' t
          (omega arith) byte w d g.sized g.fits (omega (arith, g.up))
          (g.limited limit l (omega (arith, longer))) (omega (arith, longer)))

  -- Where the library allocates and its reads deliver a line and its delimiter, fuel for one round
  -- more than the line has bytes is enough: `my_getdelim` returns the number of all bytes,
  -- delimiter and terminator included, the caller's block starts with them and has `*out_size` + 1
  -- bytes, and `*out_size` is at most any limit that its first value, 1 for NULL, and the number of
  -- bytes without the terminator keep to; this from NULL, and from a block of `*out_size` + 1
  -- bytes.
  pub my_getdelim_line :
      (fuel delim size limit : ℕ) (out : Option Block) (line : List ℕ) (s t : S)
      → Sized out size
      → length line < fuel
      → delim < 2 ^ 8
      → Without delim line
      → Delivers libc s (line ++ (delim ∷ [])) t
      → first_size out size + length line + 4 < 2 ^ 64
      → first_size out size ≤ limit
      → length line + 1 ≤ limit
      → Ends
          (my_getdelim libc fuel out size delim s)
          (length line + 2)
          limit
          (map some (line ++ (delim ∷ [])))
          t
  unfolding my_getdelim
  my_getdelim_line fuel delim size limit none line s t sized more byte w d small l k =
      let (b, given, two) = a.new 2 in
      let sum : length line + 2 ≡ 0 + length line + 2 = omega arith in
      rw (my_getdelim, given, sum)
        (getdelim_from-Ends fuel delim line [] b 1 limit s t more byte w d (omega arith)
          (omega arith) (omega arith) l (omega arith))
  my_getdelim_line fuel delim size limit (some b) line s t sized more byte w d small l k =
      let sum : length line + 2 ≡ 0 + length line + 2 = omega arith in
      rw (my_getdelim, sum)
        (getdelim_from-Ends fuel delim line [] b size limit s t more byte w d sized (omega arith)
          (omega arith) l (omega arith))
