-- ===== src/Getdelim/Grow.antt =====
-- The block of `my_getdelim` and one round of its loop.
use mathlib.Core.Option
use mathlib.Core.List.{append_assoc}
use uefilinux.Base.{
  ℕ, ◌+◌, ◌%◌, ◌^◌, ◌≤◌, ◌<◌, ◌≡◌, refl, sym, ap, ◌∙◌, true, Option, some, [], ◌∷◌, ◌++◌, length,
  length-append, set-append, ltb, ◌==◌, if◌then◌else◌, Bool-cases, inl, inr, arith,
}
use uefilinux.Getdelim.{Block, Libc, Outcome, store_out, grow, add_char, finish, round}

-- `malloc` gives a block of its size, and `realloc` to a larger size keeps the contents.
pub record Allocates {S : Type 0} (libc : Libc S) : Type 0 where
  pub new : (n : ℕ) → (b : Block) × (libc.malloc n ≡ some b) × (length b ≡ n)
  pub larger :
      (b : Block) (n : ℕ)
      → length b ≤ n
      → (extra : Block) × (libc.realloc b n ≡ some (b ++ extra)) × (length (b ++ extra) ≡ n)

pub store_out-append :
    (front back : Block) (x : Option ℕ) (c : ℕ)
    → store_out (front ++ (x ∷ back)) (length front) c ≡ some (front ++ (some c ∷ back))
unfolding store_out
store_out-append front back x c =
    let inside : ltb (length front) (length (front ++ (x ∷ back))) ≡ true =
      ground (arith, length-append front (x ∷ back)) in
    let here : length front + 0 ≡ length front = omega arith in
    rw (inside, ← here, set-append front (x ∷ back) 0 (some c))

module _ {S : Type 0} (libc : Libc S) (a : Allocates libc) where
  -- Where the block has room for its size and a terminator, the next byte fits, and so does one behind.
  pub record Room (front : Block) (grown : Option Block × ℕ) : Type 0 where
    pub x : Option ℕ
    pub y : Option ℕ
    pub back : Block
    pub block : grown.0 ≡ some (front ++ (x ∷ y ∷ back))
    pub sized : length (front ++ (x ∷ y ∷ back)) ≡ grown.1 + 1

  Room-of_list :
      (front back : Block) (size : ℕ)
      → length (front ++ back) ≡ size + 1
      → length front < size
      → Room front (some (front ++ back), size)
  Room-of_list front [] size e lt = absurd (omega (arith, length-append front []))
  Room-of_list front (x ∷ []) size e lt = absurd (omega (arith, length-append front (x ∷ [])))
  Room-of_list front (x ∷ y ∷ back) size e lt = record {
    x = x;
    y = y;
    back = back;
    block = refl;
    sized = e;
  }

  pub grow-Room :
      (front back : Block) (size : ℕ)
      → length (front ++ back) ≡ size + 1
      → length front ≤ size
      → size + 2 < 2 ^ 64
      → Room front (grow libc (front ++ back) size (length front))
  unfolding grow
  grow-Room front back size e le small = elim (Bool-cases (ltb size (length front + 1))) [
    | inl short ↦
        let one : (length front + 1) % 2 ^ 64 ≡ length front + 1 = omega arith in
        let more : (size + 1) % 2 ^ 64 ≡ size + 1 = omega arith in
        let room : (size + 1 + 1) % 2 ^ 64 ≡ size + 1 + 1 = omega arith in
        let (extra, given, sum) = a.larger (front ++ back) (size + 1 + 1) (omega arith) in
        let joined : (front ++ back) ++ extra ≡ front ++ (back ++ extra) =
          append_assoc front back extra in
        rw (one, short, more, room, given, joined)
          (Room-of_list front (back ++ extra) (size + 1) (ap length (sym joined) ∙ sum)
            (ground arith))
    | inr fits ↦
        let one : (length front + 1) % 2 ^ 64 ≡ length front + 1 = omega arith in
        rw (one, fits) (Room-of_list front back size e (ground arith))
  ]

  pub grow-le : (b : Block) (size idx : ℕ) → size + 2 < 2 ^ 64 → (grow libc b size idx).1 ≤ size + 1
  unfolding grow
  grow-le b size idx small = ground arith

  pub grow_limit :
      (b : Block) (size idx limit : ℕ)
      → size ≤ limit
      → idx + 1 ≤ limit
      → size + 2 < 2 ^ 64
      → (grow libc b size idx).1 ≤ limit
  unfolding grow
  grow_limit b size idx limit l k small = ground arith

  -- The round for a byte: the block with the byte put behind what it holds.
  pub round_lem :
      (next : Block → ℕ → ℕ → S → Outcome S) (delim c : ℕ) (front back : Block) (size : ℕ) (s : S)
      (r : Room front (grow libc (front ++ back) size (length front)))
      → length front + 2 < 2 ^ 64
      → round libc next delim (front ++ back) size (length front) c s ≡ (
          let b = (front ++ (some c ∷ [])) ++ (r.y ∷ r.back) in
          let size' = (grow libc (front ++ back) size (length front)).1 in
          if c == delim % 2 ^ 8
          then finish libc b size' (length (front ++ (some c ∷ []))) s
          else next b size' (length (front ++ (some c ∷ []))) s)
  unfolding round add_char Option.bind
  round_lem next delim c front back size s r small =
      let longer : length (front ++ (some c ∷ [])) ≡ length front + 1 =
        length-append front (some c ∷ []) in
      let one : (length front + 1) % 2 ^ 64 ≡ length front + 1 = omega arith in
      let split : (front ++ (some c ∷ [])) ++ (r.y ∷ r.back) ≡ front ++ (some c ∷ r.y ∷ r.back) =
        append_assoc front (some c ∷ []) (r.y ∷ r.back) in
      rw (round, r.block, store_out-append front (r.y ∷ r.back) r.x c, one, longer, split)
