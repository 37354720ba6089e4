-- ===== src/Getdelim/Round.antt =====
-- One round of the loop of `my_getdelim` on a byte that is not the delimiter.
use uefilinux.Base.{
  ℕ, suc, ◌+◌, ◌%◌, ◌^◌, ◌≤◌, ◌<◌, ◌≡◌, ap, false, Option, some, [], ◌∷◌, ◌++◌, length,
  length-append, ◌==◌, arith,
}
use uefilinux.Getdelim.{Block, Libc, Outcome, grow, getdelim_from}
use uefilinux.Getdelim.Grow.{Allocates, Room, grow-Room, grow-le, grow_limit, round_lem}

module _ {S : Type 0} (libc : Libc S) (a : Allocates libc) where
  -- The loop goes on with the byte behind what the block holds, and the block has its size again.
  pub record Goes (here : Outcome S) (fuel delim : ℕ) (front : Block) (size : ℕ) (s : S)
      : Type 0 where
    pub back : Block
    pub size' : ℕ
    pub on : here ≡ getdelim_from libc fuel delim (front ++ back) size' (length front) s
    pub sized : length (front ++ back) ≡ size' + 1
    pub fits : length front ≤ size'
    pub up : size' ≤ size + 1
    pub limited : (limit : ℕ) → size ≤ limit → length front ≤ limit → size' ≤ limit

  pub getdelim_from-Goes :
      (fuel delim c : ℕ) (front back : Block) (size : ℕ) (s s' : S)
      → delim < 2 ^ 8
      → (c == delim) ≡ false
      → libc.read_byte s ≡ (some c, s')
      → length (front ++ back) ≡ size + 1
      → length front ≤ size
      → size + 3 < 2 ^ 64
      → Goes
          (getdelim_from libc (suc fuel) delim (front ++ back) size (length front) s)
          fuel
          delim
          (front ++ (some c ∷ []))
          size
          s'
  unfolding getdelim_from
  getdelim_from-Goes fuel delim c front back size s s' byte other read e le small =
      let r : Room libc a front (grow libc (front ++ back) size (length front)) =
        grow-Room libc a front back size e le (omega arith) in
      let longer : length (front ++ (some c ∷ [])) ≡ length front + 1 =
        length-append front (some c ∷ []) in
      let full : length ((front ++ (some c ∷ [])) ++ (r.y ∷ r.back))
          ≡ (grow libc (front ++ back) size (length front)).1 + 1 =
        omega (
          arith,
          r.sized,
          longer,
          length-append (front ++ (some c ∷ [])) (r.y ∷ r.back),
          length-append front (r.x ∷ r.y ∷ r.back),
        ) in
      let same : (c == delim % 2 ^ 8) ≡ false = ground arith in
      let got : (libc.read_byte s).0 ≡ some c = ap (λ (o : Option ℕ × S). o.0) read in
      let then_on : (libc.read_byte s).1 ≡ s' = ap (λ (o : Option ℕ × S). o.1) read in
      record {
        back = r.y ∷ r.back;
        size' = (grow libc (front ++ back) size (length front)).1;
        on = rw (
          getdelim_from,
          got,
          then_on,
          round_lem libc a _ delim c front back size s' r (omega arith),
          same,
        );
        sized = full;
        fits = omega (arith, full, longer, length-append (front ++ (some c ∷ [])) (r.y ∷ r.back));
        up = grow-le libc a (front ++ back) size (length front) (omega arith);
        limited = λ limit l k.
            grow_limit libc a (front ++ back) size (length front) limit l (omega (arith, longer))
              (omega arith);
      }
