-- ===== src/Main/Rows.antt =====
-- The picture of `main` of src/main.c as a list of rows, and what it is to draw it.
use uefilinux.Base.{
  ℕ, zero, suc, ◌+◌, ◌%◌, ◌^◌, ◌≤◌, ◌<◌, ◌≡◌, List, [], ◌∷◌, map, get_or, ltb, if◌then◌else◌, pos,
  sub_ℕ,
}
use uefilinux.Machine.{Command, pure, ◌>>◌}
use uefilinux.Main.{Stdio}
use uefilinux.Main.Picture.{Floats, palette, constant, next_j, next_i, inside}

-- The numbers from a first one on.
abbrev pub from_on : ℕ → ℕ → List ℕ
from_on first zero = []
from_on first (suc n) = first ∷ from_on (suc first) n

module _ (fl : Floats) where
  -- How often the point of a column and a row stays inside, up to a limit and once more.
  unfoldable pub escapes : ℕ → fl.Float → fl.Float → fl.Float → fl.Float → ℕ
  escapes zero x y i r = if inside fl (next_j fl x i r) (next_i fl y i r) then 1 else 0
  escapes (suc n) x y i r =
      let more = escapes n x y (next_i fl y i r) (next_j fl x i r) in
      if inside fl (next_j fl x i r) (next_i fl y i r) then suc more else 0

  unfoldable pub shade : fl.Float → fl.Float → ℕ
  shade x y = escapes 111 x y (constant fl 0) (constant fl 0)

  abbrev pub shade_char : fl.Float → ℕ → ℕ
  shade_char y m = get_or palette (shade (constant fl m) y % 16) 0

  abbrev pub picture_row : ℕ → List ℕ
  picture_row n = map (shade_char (fl.of_int (sub_ℕ n 16))) (from_on 1 84)

  -- The rows from -15 to 15, with the columns from 1 to 84.
  unfoldable pub picture : List (List ℕ)
  picture = map picture_row (from_on 1 31)

-- Whole numbers up to 2 ^ 24 in magnitude are exact: what IEEE 754 says of `float`.
pub record IsExact (fl : Floats) : Type 0 where
  pub next :
      (n m : ℕ)
      → n < 2 ^ 24
      → m ≤ 2 ^ 24
      → fl.add (fl.of_int (sub_ℕ n m)) (fl.of_int (pos 1)) ≡ fl.of_int (sub_ℕ (n + 1) m)
  pub order :
      (n m k : ℕ)
      → n ≤ 2 ^ 24
      → m ≤ 2 ^ 24
      → k ≤ 2 ^ 24
      → fl.less (fl.of_int (sub_ℕ n m)) (fl.of_int (pos k)) ≡ ltb n (k + m)

module _ {W : Type 0} (io : Stdio W) where
  unfoldable pub draw_row : List ℕ → Command W (Unit {0})
  draw_row [] = pure tt
  draw_row (c ∷ cs) = io.putchar c >> draw_row cs

  -- Each row behind a line end, and a last line end.
  unfoldable pub draw : List (List ℕ) → Command W (Unit {0})
  draw [] = io.puts [] >> pure tt
  draw (row ∷ rows) = io.puts [] >> (draw_row row >> draw rows)
