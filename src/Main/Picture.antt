-- ===== src/Main/Picture.antt =====
-- The picture that `main` of src/main.c draws, in floating-point numbers.
use uefilinux.Base.{
  ℕ, zero, suc, ◌+◌, ◌%◌, Bool, Option, none, some, List, [], get_elem?, ltb, if◌then◌else◌, ℤ, pos,
  negsuc,
}
use uefilinux.Machine.{Command, pure, undefined, forever, ◌>>◌}
use uefilinux.Process.Texts.{codes}
use uefilinux.Main.{Stdio}

-- The type `float` with the operations of the program: an argument of what follows.
pub record Floats : Type 1 where
  pub Float : Type 0
  pub of_int : ℤ → Float
  pub add : Float → Float → Float
  pub sub : Float → Float → Float
  pub mul : Float → Float → Float
  pub div : Float → Float → Float
  pub less : Float → Float → Bool

abbrev pub palette : List ℕ
palette = codes " .:-;!/>)|&IH%*#"

module _ (fl : Floats) where
  -- A constant of the program.
  abbrev pub constant : ℕ → fl.Float
  constant n = fl.of_int (pos n)

  -- `j=r*r-i*i-2+x/25`
  unfoldable pub next_j : fl.Float → fl.Float → fl.Float → fl.Float
  next_j x i r =
      fl.add (fl.sub (fl.sub (fl.mul r r) (fl.mul i i)) (constant 2)) (fl.div x (constant 25))

  -- `i=2*r*i+y/10`
  unfoldable pub next_i : fl.Float → fl.Float → fl.Float → fl.Float
  next_i y i r = fl.add (fl.mul (fl.mul (constant 2) r) i) (fl.div y (constant 10))

  -- `j*j+i*i<11`
  unfoldable pub inside : fl.Float → fl.Float → Bool
  inside j i = fl.less (fl.add (fl.mul j j) (fl.mul i i)) (constant 11)

  -- The loop for one character, on fuel: the value of `k` behind it.
  unfoldable pub escape_from : ℕ → fl.Float → fl.Float → fl.Float → fl.Float → ℕ → Option ℕ
  escape_from zero x y i r k = none
  escape_from (suc fuel) x y i r k =
      let j = next_j x i r in
      let i' = next_i y i r in
      let rest = escape_from fuel x y i' j (k + 1) in
      if inside j i' then (if ltb k 111 then rest else some (k + 1)) else some k

module _ {W : Type 0} (fl : Floats) (io : Stdio W) where
  -- `putchar(" .:-;!/>)|&IH%*#"[k&15])`; `k` is not negative.
  unfoldable pub put_shade : ℕ → Command W (Unit {0})
  put_shade k = elim (get_elem? palette (k % 16)) [ none ↦ undefined | some c ↦ io.putchar c ]

  -- The character that a loop for one ends with.
  unfoldable pub put_escape : Option ℕ → Command W (Unit {0})
  put_escape none = forever
  put_escape (some k) = put_shade k

  -- `for(x=0;x++<84;...)`, on fuel, with its own for the loop inside.
  unfoldable pub put_columns : ℕ → ℕ → fl.Float → fl.Float → Command W (Unit {0})
  put_columns budget zero y x = forever
  put_columns budget (suc fuel) y x =
      let x' = fl.add x (constant fl 1) in
      let rest = put_columns budget fuel y x' in
      if fl.less x (constant fl 84)
      then (put_escape (escape_from fl budget x' y (constant fl 0) (constant fl 0) 0) >> rest)
      else pure tt

  -- `while(puts(""),y++<15)...`, on fuel.
  unfoldable pub put_rows : ℕ → ℕ → fl.Float → Command W (Unit {0})
  put_rows budget zero y = forever
  put_rows budget (suc fuel) y =
      let y' = fl.add y (constant fl 1) in
      let rest = put_rows budget fuel y' in
      io.puts []
      >> (if fl.less y (constant fl 15)
          then (put_columns budget budget y' (constant fl 0) >> rest)
          else pure tt)

  unfoldable pub main_picture : ℕ → Command W (Unit {0})
  main_picture budget = put_rows budget budget (fl.of_int (negsuc 15))
