-- ===== src/Examples/Drawings.antt =====
-- The demonstration program on numbers for which only whole numbers are exact, and on a list of bytes
-- as its input.
use uefilinux.Base.{
  ℕ, ◌+◌, ◌-◌, ◌*◌, ◌/◌, ◌≡◌, refl, none, some, List, [], ◌∷◌, ◌++◌, get_elem?, drop, length,
  length-append, length-replicate, replicate, ltb, Option, ℤ, pos, pos_part, neg_part, sub_ℕ, arith,
}
use uefilinux.Machine.{Machine, ok, pure}
use uefilinux.Machine.After.{Returns}
use uefilinux.Getdelim.{Libc}
use uefilinux.Getdelim.Grow.{Allocates}
use uefilinux.Main.{Stdio}
use uefilinux.Main.Picture.{Floats, main_picture}
use uefilinux.Main.Rows.{IsExact, picture, draw}
use uefilinux.Main.Drawn.{AllRows, main_picture_lem}
use uefilinux.Main.Input.{typed, main_line}
use uefilinux.Main.Typed.{main_line_lem}
use uefilinux.Main.Quiet.{Returning}
use uefilinux.Main.Ends.{main_lem}
use uefilinux.Main.Whole.{main}
use uefilinux.Examples.Machines.{shared}
use uefilinux.Examples.Consoles.{drop-get_elem?}

abbrev whole_numbers : Floats
whole_numbers = record {
  Float = ℤ;
  of_int = λ z. z;
  add = λ a b. sub_ℕ (pos_part a + pos_part b) (neg_part a + neg_part b);
  sub = λ a b. sub_ℕ (pos_part a + neg_part b) (neg_part a + pos_part b);
  mul = λ a b.
      sub_ℕ (pos_part a * pos_part b + neg_part a * neg_part b)
        (pos_part a * neg_part b + neg_part a * pos_part b);
  div = λ a b. sub_ℕ (pos_part a / pos_part b) (neg_part a / pos_part b);
  less = λ a b. ltb (pos_part a + neg_part b) (pos_part b + neg_part a);
}

whole_numbers-IsExact : IsExact whole_numbers
whole_numbers-IsExact = record {
  next = λ n m h k. ground arith;
  order = λ n m k h l j. ground arith;
}

-- Output moves the firmware's state on.
abbrev counting : Stdio ℕ
counting = record {
  puts = λ text. pure tt;
  write = λ fd text count. pure (pos count);
  perror = λ text. pure tt;
  printf = λ text args. pure tt;
  printf_text = λ text arg s. ok tt (record s { world = s.world + length arg });
  putchar = λ c s. ok tt (record s { world = s.world + c });
  sleep = λ seconds. pure tt;
  malloc = λ n. pure 4096;
  strcpy = λ p text. pure tt;
  free = λ p. pure tt;
  getchar = pure b'\n';
  exit = λ status. pure tt;
}

main_picture_lem_example :
    (main_picture whole_numbers counting 112 shared ≡ draw counting (picture whole_numbers) shared)
    × (length (picture whole_numbers) ≡ 31)
    × AllRows (picture whole_numbers)
main_picture_lem_example =
    main_picture_lem whole_numbers counting 112 shared whole_numbers-IsExact (omega arith)

-- The program gets its bytes from a list, with the firmware's state as the place in it.
abbrev keys : List ℕ
keys = b'a' ∷ b'b' ∷ b'\n' ∷ b'x' ∷ b'\n' ∷ []

abbrev keyboard : Libc (Machine ℕ)
keyboard = record {
  read_byte = λ s. (get_elem? keys s.world, record s { world = s.world + 1 });
  malloc = λ n. some (replicate n none);
  realloc = λ b n. some (b ++ replicate (n - length b) none);
}

keyboard-Allocates : Allocates keyboard
keyboard-Allocates = record {
  new = λ n. (replicate n none, refl, length-replicate n none);
  larger = λ b n le. (
    replicate (n - length b) none,
    refl,
    omega (
      arith,
      length-append b (replicate (n - length b) none),
      length-replicate {A = Option ℕ} (n - length b) none,
    ),
  );
}

abbrev at_key : ℕ → Machine ℕ
at_key n = record shared { world = n }

main_line_lem_example :
    main_line counting keyboard 3 77 (at_key 0)
    ≡ counting.printf_text typed (b'a' ∷ b'b' ∷ []) (at_key 3)
main_line_lem_example =
    main_line_lem counting keyboard 3 77 (b'a' ∷ b'b' ∷ []) (at_key 0) (at_key 0) (at_key 0)
      (at_key 3) keyboard-Allocates refl refl
      (at_key 1, refl, (at_key 2, refl, (at_key 3, refl, refl))) (refl, (refl, tt))
      (refl, (refl, tt)) (omega arith) (omega arith)

-- Output goes nowhere, and `getchar` reads the bytes too.
abbrev quiet : Stdio ℕ
quiet = record {
  puts = λ text. pure tt;
  write = λ fd text count. pure (pos count);
  perror = λ text. pure tt;
  printf = λ text args. pure tt;
  printf_text = λ text arg. pure tt;
  putchar = λ c. pure tt;
  sleep = λ seconds. pure tt;
  malloc = λ n. pure 4096;
  strcpy = λ p text. pure tt;
  free = λ p. pure tt;
  getchar = λ s. elim (get_elem? keys s.world) [
    | none ↦ ok 256 s
    | some c ↦ ok c (record s { world = s.world + 1 })
  ];
  exit = λ status. pure tt;
}

quiet-getchar :
    (c : ℕ) (cs : List ℕ) (s : Machine ℕ)
    → drop s.world keys ≡ c ∷ cs
    → Returns (λ r t. (r ≡ c) × (drop t.world keys ≡ cs)) (quiet.getchar s)
quiet-getchar c cs s e = let (got, left) = drop-get_elem? keys s.world c cs e in rw got (refl, left)

abbrev quiet-Returning : Returning quiet keyboard
quiet-Returning = record {
  pending = λ s. drop s.world keys;
  puts = λ text s. refl;
  write = λ fd text n s. refl;
  perror = λ text s. refl;
  printf = λ text args s. refl;
  printf_text = λ text arg s. refl;
  putchar = λ c s. refl;
  sleep = λ n s. refl;
  malloc = λ n s. refl;
  strcpy = λ p text s. refl;
  free = λ p s. refl;
  getchar = quiet-getchar;
  read_byte = λ c cs s e. drop-get_elem? keys s.world c cs e;
}

main_lem_example :
    (t : Machine ℕ) × (drop t.world keys ≡ [])
    × (main whole_numbers quiet keyboard 112 77 (at_key 0) ≡ ok tt t)
main_lem_example =
    main_lem quiet keyboard quiet-Returning whole_numbers (b'a' ∷ b'b' ∷ []) (b'x' ∷ []) [] 112 77
      (at_key 0) whole_numbers-IsExact keyboard-Allocates (refl, (refl, tt)) (refl, (refl, tt))
      (refl, tt) (omega arith) (omega arith) (omega arith) (omega arith) refl
