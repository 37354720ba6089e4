-- ===== src/Main/Drawn.antt =====
-- That `main` of src/main.c draws the picture.
use uefilinux.Base.{
  ℕ, zero, suc, ◌+◌, ◌%◌, ◌^◌, ◌≤◌, ◌<◌, ◌≡◌, refl, sym, ap, ◌∙◌, true, false, Bool-cases, inl, inr,
  some, List, [], ◌∷◌, map, length, length-map, get_elem?, get_or, ltb, ℤ, pos, sub_ℕ, arith,
}
use uefilinux.Machine.{Machine, Run, ok, fault, spin, Command, and_then}
use uefilinux.Main.{Stdio}
use uefilinux.Main.Picture.{
  Floats, palette, constant, next_j, next_i, inside, escape_from, put_shade, put_escape,
  put_columns, put_rows, main_picture,
}
use uefilinux.Main.Rows.{
  from_on, escapes, shade, shade_char, picture_row, picture, IsExact, draw_row, draw,
}

module _ (fl : Floats) where
  escape_from_lem :
      (n fuel : ℕ) (x y i r : fl.Float) (k : ℕ)
      → k + n ≡ 111
      → n < fuel
      → escape_from fl fuel x y i r k ≡ some (k + escapes fl n x y i r)
  unfolding escape_from escapes
  escape_from_lem n zero x y i r k e lt = absurd (omega arith)
  escape_from_lem zero (suc fuel) x y i r k e lt =
      elim (Bool-cases (inside fl (next_j fl x i r) (next_i fl y i r))) [
        | inl more ↦
            let last : ltb k 111 ≡ false = ground arith in rw (escape_from, escapes, more, last)
        | inr out ↦ let sum : k + 0 ≡ k = omega arith in rw (escape_from, escapes, out, sum)
      ]
  escape_from_lem (suc n) (suc fuel) x y i r k e lt =
      elim (Bool-cases (inside fl (next_j fl x i r) (next_i fl y i r))) [
        | inl more ↦
            let last : ltb k 111 ≡ true = ground arith in
            let rest = escapes fl n x y (next_i fl y i r) (next_j fl x i r) in
            let sum : k + suc rest ≡ k + 1 + rest = omega arith in
            rw (escape_from, escapes, more, last, sum)
              (escape_from_lem n fuel x y (next_i fl y i r) (next_j fl x i r) (k + 1) (omega arith)
                (omega arith))
        | inr out ↦ let sum : k + 0 ≡ k = omega arith in rw (escape_from, escapes, out, sum)
      ]

  escape_from-shade :
      (fuel : ℕ) (x y : fl.Float)
      → 111 < fuel
      → escape_from fl fuel x y (constant fl 0) (constant fl 0) 0 ≡ some (shade fl x y)
  unfolding shade
  escape_from-shade fuel x y lt =
      let e = escapes fl 111 x y (constant fl 0) (constant fl 0) in
      let sum : 0 + e ≡ e = omega arith in
      escape_from_lem 111 fuel x y (constant fl 0) (constant fl 0) 0 (omega arith) lt ∙ ap some sum

pub get_elem?-get_or :
    {A : Type 0} (xs : List A) (n : ℕ) (d : A)
    → n < length xs
    → get_elem? xs n ≡ some (get_or xs n d)
get_elem?-get_or [] n d lt = absurd (omega arith)
get_elem?-get_or (x ∷ xs) zero d lt = refl
get_elem?-get_or (x ∷ xs) (suc n) d lt = get_elem?-get_or xs n d (omega arith)

sub_ℕ-zero : (n : ℕ) → sub_ℕ n 0 ≡ pos n
sub_ℕ-zero n = ground arith

module _ (fl : Floats) (exact : IsExact fl) where
  up_one :
      (n m : ℕ)
      → n < 2 ^ 24
      → m ≤ 2 ^ 24
      → fl.add (fl.of_int (sub_ℕ n m)) (constant fl 1) ≡ fl.of_int (sub_ℕ (suc n) m)
  up_one n m h k =
      let e : n + 1 ≡ suc n = omega arith in
      exact.next n m h k ∙ ap (λ (v : ℕ). fl.of_int (sub_ℕ v m)) e

  up_column : (n : ℕ) → n < 2 ^ 24 → fl.add (constant fl n) (constant fl 1) ≡ constant fl (suc n)
  up_column n h =
      ap (λ (z : ℤ). fl.add (fl.of_int z) (constant fl 1)) (sym (sub_ℕ-zero n))
      ∙ (up_one n 0 h (omega arith) ∙ ap fl.of_int (sub_ℕ-zero (suc n)))

  less_column :
      (n k : ℕ) → n ≤ 2 ^ 24 → k ≤ 2 ^ 24 → fl.less (constant fl n) (constant fl k) ≡ ltb n k
  less_column n k h l =
      let e : k + 0 ≡ k = omega arith in
      ap (λ (z : ℤ). fl.less (fl.of_int z) (constant fl k)) (sym (sub_ℕ-zero n))
      ∙ (exact.order n 0 k h (omega arith) l ∙ ap (λ (v : ℕ). ltb n v) e)

module _ {W A B : Type 0} where
  and_then-cong :
      (m : Run W A) (f g : A → Command W B)
      → ((a : A) (s : Machine W) → f a s ≡ g a s)
      → and_then m f ≡ and_then m g
  and_then-cong (ok a s) f g h = h a s
  and_then-cong fault f g h = refl
  and_then-cong (spin s) f g h = refl

module _ {W : Type 0} (fl : Floats) (io : Stdio W) (exact : IsExact fl) (budget : ℕ) where
  put_shade_lem :
      (k : ℕ) (s : Machine W) → put_shade fl io k s ≡ io.putchar (get_or palette (k % 16) 0) s
  unfolding put_shade
  put_shade_lem k s = rw (put_shade, get_elem?-get_or palette (k % 16) 0 (omega arith))

  put_columns_lem :
      (n fuel m : ℕ) (y : fl.Float) (s : Machine W)
      → 112 ≤ budget
      → n < fuel
      → m + n ≡ 84
      → put_columns fl io budget fuel y (constant fl m) s
        ≡ draw_row io (map (shade_char fl y) (from_on (suc m) n)) s
  unfolding put_columns put_escape draw_row
  put_columns_lem n zero m y s b lt e = absurd (omega arith)
  put_columns_lem zero (suc fuel) m y s b lt e =
      let stop : fl.less (constant fl m) (constant fl 84) ≡ false =
        less_column fl exact m 84 (omega arith) (omega arith) ∙ ground arith in
      rw (put_columns, stop)
  put_columns_lem (suc n) (suc fuel) m y s b lt e =
      let more : fl.less (constant fl m) (constant fl 84) ≡ true =
        less_column fl exact m 84 (omega arith) (omega arith) ∙ ground arith in
      let up : fl.add (constant fl m) (constant fl 1) ≡ constant fl (suc m) =
        up_column fl exact m (omega arith) in
      let k = shade fl (constant fl (suc m)) y in
      let ends : escape_from fl budget (constant fl (suc m)) y (constant fl 0) (constant fl 0) 0
          ≡ some k =
        escape_from-shade fl budget (constant fl (suc m)) y (omega arith) in
      rw (put_columns, more, up, ends, put_escape, put_shade_lem k s)
        (and_then-cong (io.putchar (get_or palette (k % 16) 0) s) _ _
          λ u t. put_columns_lem n fuel (suc m) y t b (omega arith) (omega arith))

  put_rows_lem :
      (n fuel m : ℕ) (s : Machine W)
      → 112 ≤ budget
      → n < fuel
      → m + n ≡ 31
      → put_rows fl io budget fuel (fl.of_int (sub_ℕ m 16)) s
        ≡ draw io (map (picture_row fl) (from_on (suc m) n)) s
  unfolding put_rows draw
  put_rows_lem n zero m s b lt e = absurd (omega arith)
  put_rows_lem zero (suc fuel) m s b lt e =
      let stop : fl.less (fl.of_int (sub_ℕ m 16)) (constant fl 15) ≡ false =
        exact.order m 16 15 (omega arith) (omega arith) (omega arith) ∙ ground arith in
      rw (put_rows, stop)
  put_rows_lem (suc n) (suc fuel) m s b lt e =
      let more : fl.less (fl.of_int (sub_ℕ m 16)) (constant fl 15) ≡ true =
        exact.order m 16 15 (omega arith) (omega arith) (omega arith) ∙ ground arith in
      let up : fl.add (fl.of_int (sub_ℕ m 16)) (constant fl 1) ≡ fl.of_int (sub_ℕ (suc m) 16) =
        up_one fl exact m 16 (omega arith) (omega arith) in
      let y = fl.of_int (sub_ℕ (suc m) 16) in
      rw (put_rows, more, up)
        (and_then-cong (io.puts [] s) _ _ λ u t.
          rw (put_columns_lem 84 budget 0 y t b (omega arith) (omega arith)) (
            and_then-cong (draw_row io (picture_row fl (suc m)) t) _ _
              λ u' t'. put_rows_lem n fuel (suc m) t' b (omega arith) (omega arith)))

-- Every character is one of the program's, in a row of 84, in 31 rows.
abbrev pub IsShade : ℕ → Type 0
IsShade c = (k : ℕ) × (k < 16) × (get_elem? palette k ≡ some c)

abbrev pub AllShades : List ℕ → Type 0
AllShades [] = Unit {0}
AllShades (c ∷ cs) = IsShade c × AllShades cs

abbrev pub AllRows : List (List ℕ) → Type 0
AllRows [] = Unit {0}
AllRows (row ∷ rows) = ((length row ≡ 84) × AllShades row) × AllRows rows

IsShade-get_or : (n : ℕ) → IsShade (get_or palette (n % 16) 0)
IsShade-get_or n = (n % 16, omega arith, get_elem?-get_or palette (n % 16) 0 (omega arith))

module _ (fl : Floats) where
  row-AllShades : (y : fl.Float) (ms : List ℕ) → AllShades (map (shade_char fl y) ms)
  row-AllShades y [] = tt
  row-AllShades y (m ∷ ms) = (IsShade-get_or (shade fl (constant fl m) y), row-AllShades y ms)

  length-from_on : (first n : ℕ) → length (from_on first n) ≡ n
  length-from_on first zero = refl
  length-from_on first (suc n) = ap suc (length-from_on (suc first) n)

  picture-AllRows : (ns : List ℕ) → AllRows (map (picture_row fl) ns)
  picture-AllRows [] = tt
  picture-AllRows (n ∷ ns) = (
    (
      length-map (from_on 1 84) (shade_char fl (fl.of_int (sub_ℕ n 16))) ∙ length-from_on 1 84,
      row-AllShades (fl.of_int (sub_ℕ n 16)) (from_on 1 84),
    ),
    picture-AllRows ns,
  )

  -- Where whole numbers up to 2 ^ 24 are exact, fuel of 112 is enough for the picture that `main`
  -- draws, whatever the output calls do: 31 rows of 84 characters of its palette, each the number
  -- of rounds for its column and row modulo 16, with a line end before each row and one behind the
  -- last.
  pub main_picture_lem :
      {W : Type 0} (io : Stdio W) (budget : ℕ) (s : Machine W)
      → IsExact fl
      → 112 ≤ budget
      → (main_picture fl io budget s ≡ draw io (picture fl) s)
        × (length (picture fl) ≡ 31)
        × AllRows (picture fl)
  unfolding main_picture picture
  main_picture_lem io budget s exact b = (
    put_rows_lem fl io exact budget 31 budget 0 s b (omega arith) (omega arith),
    length-map (from_on 1 31) (picture_row fl) ∙ length-from_on 1 31,
    picture-AllRows (from_on 1 31),
  )
