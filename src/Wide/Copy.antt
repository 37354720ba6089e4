-- ===== src/Wide/Copy.antt =====
-- What `bstr_to_wstr` leaves in its buffer.
use uefilinux.Base.{
  ℕ, zero, suc, ◌+◌, ◌*◌, ◌≤◌, ◌<◌, ◌≡◌, refl, ap, ◌∙◌, List, [], ◌∷◌, ◌++◌, length, length-append,
  length-set, set, set-append, ◌==◌, if◌then◌else◌, Bool-cases, inl, inr, arith,
}
use mathlib.Core.List.{append_assoc}
use uefilinux.Machine.{Machine, Run, ok}
use uefilinux.Wide.{max_wide, wide_loop, wide_buffer, read_wide, bstr_to_wstr}

-- The bytes from `p` up to the first 0, at most `limit` of them.
unfoldable pub c_string : ℕ → (ℕ → ℕ) → ℕ → List ℕ
c_string zero input p = []
c_string (suc limit) input p = if input p == 0 then [] else input p ∷ c_string limit input (p + 1)

-- The buffer that ends in the encoded string, over what stood there.
encode : ℕ → (ℕ → ℕ) → ℕ → List ℕ → List ℕ
encode zero input p (x ∷ y ∷ rest) = 0 ∷ 0 ∷ rest
encode (suc n) input p (x ∷ y ∷ rest) =
    if input p == 0 then 0 ∷ 0 ∷ rest else input p ∷ 0 ∷ encode n input (p + 1) rest
encode n input p short = short

set_pair :
    (front rest : List ℕ) (it x y v w : ℕ)
    → length front ≡ it * 2
    → set (set (front ++ (x ∷ y ∷ rest)) (it * 2) v) (it * 2 + 1) w ≡ front ++ (v ∷ w ∷ rest)
set_pair front rest it x y v w e =
    let first : it * 2 ≡ length front + 0 = omega arith in
    let second : length front + 0 + 1 ≡ length front + 1 = omega arith in
    rw (first, set-append front (x ∷ y ∷ rest) 0 v, second) (set-append front (v ∷ y ∷ rest) 1 w)

abbrev finish : ℕ × List ℕ → List ℕ
finish (it, b) = set (set b (it * 2) 0) (it * 2 + 1) 0

wide_loop-encode :
    (n : ℕ) (input : ℕ → ℕ) (p it : ℕ) (front back : List ℕ)
    → length front ≡ it * 2
    → n * 2 + 2 ≤ length back
    → finish (wide_loop n input p it (front ++ back)) ≡ front ++ encode n input (p + it) back
unfolding wide_loop encode
wide_loop-encode n input p it front [] e le = absurd (omega arith)
wide_loop-encode n input p it front (x ∷ []) e le = absurd (omega arith)
wide_loop-encode zero input p it front (x ∷ y ∷ rest) e le = set_pair front rest it x y 0 0 e
wide_loop-encode (suc n) input p it front (x ∷ y ∷ rest) e le =
    elim (Bool-cases (input (p + it) == 0)) [
      | inl stop ↦ rw stop (set_pair front rest it x y 0 0 e)
      | inr more ↦
          rw
            (
              more,
              set_pair front rest it x y (input (p + it)) 0 e,
              ← append_assoc front (input (p + it) ∷ 0 ∷ []) rest,
            )
            (wide_loop-encode n input p (it + 1) (front ++ (input (p + it) ∷ 0 ∷ [])) rest
                (omega (arith, length-append front (input (p + it) ∷ 0 ∷ []))) (omega arith)
              ∙ append_assoc front (input (p + it) ∷ 0 ∷ []) (encode n input (p + (it + 1)) rest)
              ∙ ap (λ (q : ℕ). front ++ (input (p + it) ∷ 0 ∷ encode n input q rest)) (omega arith))
    ]

read_wide-encode :
    (n : ℕ) (input : ℕ → ℕ) (p : ℕ) (back : List ℕ)
    → n * 2 + 2 ≤ length back
    → read_wide (encode n input p back) ≡ c_string n input p
unfolding read_wide encode c_string
read_wide-encode n input p [] le = absurd (omega arith)
read_wide-encode n input p (x ∷ []) le = absurd (omega arith)
read_wide-encode zero input p (x ∷ y ∷ rest) le = refl
read_wide-encode (suc n) input p (x ∷ y ∷ rest) le =
    ground (arith, read_wide-encode n input (p + 1) rest)

length-encode :
    (n : ℕ) (input : ℕ → ℕ) (p : ℕ) (back : List ℕ) → length (encode n input p back) ≡ length back
unfolding encode
length-encode zero input p [] = refl
length-encode (suc n) input p [] = refl
length-encode zero input p (x ∷ []) = refl
length-encode (suc n) input p (x ∷ []) = refl
length-encode zero input p (x ∷ y ∷ rest) = refl
length-encode (suc n) input p (x ∷ y ∷ rest) = ground (arith, length-encode n input (p + 1) rest)

wide_loop-le :
    (n : ℕ) (input : ℕ → ℕ) (p it : ℕ) (fres : List ℕ) → (wide_loop n input p it fres).0 ≤ it + n
unfolding wide_loop
wide_loop-le zero input p it fres = omega arith
wide_loop-le (suc n) input p it fres = elim (Bool-cases (input (p + it) == 0)) [
  | inl stop ↦ rw stop (omega arith)
  | inr more ↦ rw more (
      omega (
        arith,
        wide_loop-le n input p (it + 1) (set (set fres (it * 2) (input (p + it))) (it * 2 + 1) 0),
      ))
]

-- With a name buffer of 1024 bytes, `bstr_to_wstr` gives the firmware the caller's string, cut off
-- at 510 bytes, writes inside the buffer only, and changes nothing else.
pub bstr_to_wstr_lem :
    {W : Type 0} (input : ℕ) (s : Machine W)
    → length s.fres ≡ 1024
    → (b : List ℕ) × (bstr_to_wstr input s
        ≡ ok (c_string max_wide s.mem.bytes input) (record s { fres = b }))
      × (length b ≡ 1024)
      × ((wide_loop max_wide s.mem.bytes input 0 s.fres).0 * 2 + 1 < 1024)
unfolding bstr_to_wstr wide_buffer
bstr_to_wstr_lem {W} input s e = (
  encoded,
  ap {B = Run W (List ℕ)} (λ b. ok (read_wide b) (record s { fres = b })) stored
      ∙ ap {B = Run W (List ℕ)} (λ l. ok l (record s { fres = encoded }))
          (read_wide-encode max_wide s.mem.bytes input s.fres (omega arith)),
  omega (arith, length-encode max_wide s.mem.bytes input s.fres),
  omega (arith, wide_loop-le max_wide s.mem.bytes input 0 s.fres),
)
  where
    encoded : List ℕ
    encoded = encode max_wide s.mem.bytes input s.fres

    stored : finish (wide_loop max_wide s.mem.bytes input 0 s.fres) ≡ encoded
    stored =
        let start : input + 0 ≡ input = omega arith in
        rw start at (wide_loop-encode max_wide s.mem.bytes input 0 [] s.fres refl (omega arith))

length-wide_loop :
    (n : ℕ) (input : ℕ → ℕ) (p it : ℕ) (fres : List ℕ)
    → length (wide_loop n input p it fres).1 ≡ length fres
unfolding wide_loop
length-wide_loop zero input p it fres = refl
length-wide_loop (suc n) input p it fres =
    let once = set fres (it * 2) (input (p + it)) in
    ground (
      arith,
      length-wide_loop n input p (it + 1) (set once (it * 2 + 1) 0),
      length-set once (it * 2 + 1) 0,
      length-set fres (it * 2) (input (p + it)),
    )

-- The buffer keeps its size.
pub length-wide_buffer :
    (input : ℕ → ℕ) (p : ℕ) (fres : List ℕ) → length (wide_buffer input p fres) ≡ length fres
unfolding wide_buffer
length-wide_buffer input p fres = omega (
  arith,
  length-wide_loop max_wide input p 0 fres,
  length-set {0} (wide_loop max_wide input p 0 fres).1,
  length-set {0}
      (set (wide_loop max_wide input p 0 fres).1 ((wide_loop max_wide input p 0 fres).0 * 2) 0),
)
