-- ===== src/Console/Convert.antt =====
-- The loop of a console write, against the text that it is to put into its buffer.
use uefilinux.Base.{
  ℕ, zero, suc, ◌+◌, ◌*◌, ◌%◌, ◌^◌, ◌≤◌, ◌<◌, ◌≡◌, refl, subst, true, false, Option, some, List, [],
  ◌∷◌, ◌++◌, length, length-append, ltb, ◌==◌, if◌then◌else◌, Bool-cases, inl, inr, arith,
}
use mathlib.Core.Option
use mathlib.Core.List.{append_assoc, append-nil}
use uefilinux.Machine.{update}
use uefilinux.File.{load_bytes}
use uefilinux.Console.{CharBuffer, store_char, put_char, Converted, converted, convert}

-- The characters for bytes: a NUL is dropped, and a return stands before each line feed.
unfoldable pub translate : List ℕ → List ℕ
translate [] = []
translate (c ∷ cs) =
    if c == 0
    then translate cs
    else if c == b'\n'
    then b'\r' ∷ b'\n' ∷ translate cs
    else c ∷ translate cs

-- From `i` on the buffer holds these characters.
abbrev pub Holds : CharBuffer → ℕ → List ℕ → Type 0
Holds b i [] = Unit {0}
Holds b i (c ∷ cs) = (b i ≡ some c) × Holds b (i + 1) cs

pub Holds-update :
    (b : CharBuffer) (i j : ℕ) (v : Option ℕ) (cs : List ℕ)
    → i + length cs ≤ j
    → Holds b i cs
    → Holds (update b j v) i cs
unfolding update
Holds-update b i j v [] le h = tt
Holds-update b i j v (c ∷ cs) le h = (ground arith, Holds-update b (i + 1) j v cs (omega arith) h.1)

Holds-snoc :
    (b : CharBuffer) (i j c : ℕ) (cs : List ℕ)
    → j ≡ i + length cs
    → Holds b i cs
    → Holds (update b j (some c)) i (cs ++ (c ∷ []))
unfolding update
Holds-snoc b i j c [] e h = (ground arith, tt)
Holds-snoc b i j c (d ∷ cs) e h = (ground arith, Holds-snoc b (i + 1) j c cs (omega arith) h.1)

put_char_nul :
    (count str_it : ℕ) (b : CharBuffer)
    → str_it < 2 ^ 32
    → put_char count 0 str_it b ≡ some (str_it, b)
unfolding put_char
put_char_nul count str_it b lt = ground arith

put_char_newline :
    (count str_it : ℕ) (b : CharBuffer)
    → str_it + 1 < count * 2
    → count < 2 ^ 31
    → put_char count b'\n' str_it b
      ≡ some (str_it + 2, update (update b str_it (some b'\r')) (str_it + 1) (some b'\n'))
unfolding put_char store_char Option.bind
put_char_newline count str_it b lt small =
    let first : ltb str_it (count * 2) ≡ true = ground arith in
    let next : (str_it + 1) % 2 ^ 32 ≡ str_it + 1 = omega arith in
    let second : ltb (str_it + 1) (count * 2) ≡ true = ground arith in
    let last : (str_it + 1 + 1) % 2 ^ 32 ≡ str_it + 2 = omega arith in
    rw (first, next, second, last)

put_char_other :
    (count c str_it : ℕ) (b : CharBuffer)
    → (c == 0) ≡ false
    → (c == b'\n') ≡ false
    → str_it < count * 2
    → count < 2 ^ 31
    → put_char count c str_it b ≡ some (str_it + 1, update b str_it (some c))
unfolding put_char store_char
put_char_other count c str_it b not_nul not_newline lt small =
    let first : ltb str_it (count * 2) ≡ true = ground arith in
    let next : (str_it + 1) % 2 ^ 32 ≡ str_it + 1 = omega arith in
    rw (not_nul, not_newline, first, next)

-- The loop from index `it` on, with what is in the buffer so far: it ends with the characters of the
-- bytes that are left put behind.
pub record Ends (r : Converted) (out : List ℕ) : Type 0 where
  pub buffer : CharBuffer
  pub ends : r ≡ converted (length out) buffer
  pub holds : Holds buffer 0 out

Ends-of_eq : (r : Converted) (xs ys : List ℕ) → xs ≡ ys → Ends r xs → Ends r ys
Ends-of_eq r xs ys e h = subst (λ l. Ends r l) e h

convert_step :
    (fuel : ℕ) (src : ℕ → ℕ) (count it str_it str_it' : ℕ) (b b' : CharBuffer)
    → it < count
    → count < 2 ^ 31
    → put_char count (src it) str_it b ≡ some (str_it', b')
    → convert (suc fuel) src count it str_it b ≡ convert fuel src count (it + 1) str_it' b'
unfolding convert
convert_step fuel src count it str_it str_it' b b' lt small e =
    let more : (it == count) ≡ false = ground arith in
    let next : (it + 1) % 2 ^ 32 ≡ it + 1 = omega arith in rw (convert, more, e, next)

convert_done :
    (fuel : ℕ) (src : ℕ → ℕ) (count it str_it : ℕ) (b : CharBuffer)
    → it ≡ count
    → convert (suc fuel) src count it str_it b ≡ converted str_it b
unfolding convert
convert_done fuel src count it str_it b e =
    let done : (it == count) ≡ true = ground arith in rw (convert, done)

pub convert-Ends :
    (src : ℕ → ℕ) (count left it : ℕ) (b : CharBuffer) (out : List ℕ)
    → it + left ≡ count
    → count < 2 ^ 31
    → length out ≤ it * 2
    → Holds b 0 out
    → Ends
        (convert (suc left) src count it (length out) b)
        (out ++ translate (load_bytes src it left))
unfolding load_bytes translate
convert-Ends src count zero it b out e small le h =
    rw (convert_done 0 src count it (length out) b (omega arith), append-nil)
      (record { buffer = b; ends = refl; holds = h })
convert-Ends src count (suc left) it b out e small le h = elim (Bool-cases (src it == 0)) [
  | inl nul ↦
      let c : src it ≡ 0 = ground arith in
      rw
        (
          convert_step (suc left) src count it (length out) (length out) b b (omega arith) small
              (rw c (put_char_nul count (length out) b (omega arith))),
          nul,
        )
        (convert-Ends src count left (it + 1) b out (omega arith) small (omega arith) h)
  | inr some_char ↦ elim (Bool-cases (src it == b'\n')) [
    | inl newline ↦
        let c : src it ≡ b'\n' = ground arith in
        let b' : CharBuffer =
          update (update b (length out) (some b'\r')) (length out + 1) (some b'\n') in
        let longer : length (out ++ (b'\r' ∷ b'\n' ∷ [])) ≡ length out + 2 =
          length-append out (b'\r' ∷ b'\n' ∷ []) in
        let h' : Holds b' 0 (out ++ (b'\r' ∷ b'\n' ∷ [])) =
          rw (← append_assoc out (b'\r' ∷ []) (b'\n' ∷ [])) (
            Holds-snoc (update b (length out) (some b'\r')) 0 (length out + 1) b'\n'
              (out ++ (b'\r' ∷ [])) (omega (arith, length-append out (b'\r' ∷ [])))
              (Holds-snoc b 0 (length out) b'\r' out (omega arith) h)) in
        rw
          (
            convert_step (suc left) src count it (length out) (length out + 2) b b' (omega arith)
                small (rw c (put_char_newline count (length out) b (omega arith) small)),
            some_char,
            newline,
            ← longer,
          )
          (Ends-of_eq _ _ _
            (append_assoc out (b'\r' ∷ b'\n' ∷ []) (translate (load_bytes src (it + 1) left)))
            (convert-Ends src count left (it + 1) b' (out ++ (b'\r' ∷ b'\n' ∷ [])) (omega arith)
              small (omega (arith, longer)) h'))
    | inr other ↦
        let longer : length (out ++ (src it ∷ [])) ≡ length out + 1 =
          length-append out (src it ∷ []) in
        rw
          (
            convert_step (suc left) src count it (length out) (length out + 1) b
                (update b (length out) (some (src it))) (omega arith) small
                (put_char_other count (src it) (length out) b some_char other (omega arith) small),
            some_char,
            other,
            ← longer,
          )
          (Ends-of_eq _ _ _
            (append_assoc out (src it ∷ []) (translate (load_bytes src (it + 1) left)))
            (convert-Ends src count left (it + 1) (update b (length out) (some (src it)))
              (out ++ (src it ∷ [])) (omega arith) small (omega (arith, longer))
              (Holds-snoc b 0 (length out) (src it) out (omega arith) h)))
  ]
]
