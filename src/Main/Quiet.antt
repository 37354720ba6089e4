-- ===== src/Main/Quiet.antt =====
-- The parts of `main` of src/main.c that take nothing from the input.
use uefilinux.Base.{ℕ, zero, suc, ◌+◌, ◌-◌, ◌≡◌, refl, ◌∙◌, some, List, [], ◌∷◌, drop, ℤ, pos}
use uefilinux.Machine.{Machine, Command, pure, ◌>>=◌, ◌>>◌}
use uefilinux.Machine.After.{Returns, Returns-mono, Returns-and_then}
use uefilinux.Process.Texts.{codes}
use uefilinux.Getdelim.{Libc}
use uefilinux.Main.{Stdio, hello, write_loop, printf_loop, main_start}
use uefilinux.Main.Rows.{draw_row, draw}

-- Every call of the C library returns, and only the reads take bytes from the input, one at a time.
pub record Returning {W : Type 0} (io : Stdio W) (libc : Libc (Machine W)) : Type 0 where
  pub pending : Machine W → List ℕ
  pub puts :
      (text : List ℕ) (s : Machine W) → Returns (λ r t. pending t ≡ pending s) (io.puts text s)
  pub write :
      (fd : ℤ) (text : List ℕ) (n : ℕ) (s : Machine W)
      → Returns (λ r t. pending t ≡ pending s) (io.write fd text n s)
  pub perror :
      (text : List ℕ) (s : Machine W) → Returns (λ r t. pending t ≡ pending s) (io.perror text s)
  pub printf :
      (text args : List ℕ) (s : Machine W)
      → Returns (λ r t. pending t ≡ pending s) (io.printf text args s)
  pub printf_text :
      (text arg : List ℕ) (s : Machine W)
      → Returns (λ r t. pending t ≡ pending s) (io.printf_text text arg s)
  pub putchar : (c : ℕ) (s : Machine W) → Returns (λ r t. pending t ≡ pending s) (io.putchar c s)
  pub sleep : (n : ℕ) (s : Machine W) → Returns (λ r t. pending t ≡ pending s) (io.sleep n s)
  pub malloc : (n : ℕ) (s : Machine W) → Returns (λ r t. pending t ≡ pending s) (io.malloc n s)
  pub strcpy :
      (p : ℕ) (text : List ℕ) (s : Machine W)
      → Returns (λ r t. pending t ≡ pending s) (io.strcpy p text s)
  pub free : (p : ℕ) (s : Machine W) → Returns (λ r t. pending t ≡ pending s) (io.free p s)
  pub getchar :
      (c : ℕ) (cs : List ℕ) (s : Machine W)
      → pending s ≡ c ∷ cs
      → Returns (λ r t. (r ≡ c) × (pending t ≡ cs)) (io.getchar s)
  pub read_byte :
      (c : ℕ) (cs : List ℕ) (s : Machine W)
      → pending s ≡ c ∷ cs
      → ((libc.read_byte s).0 ≡ some c) × (pending (libc.read_byte s).1 ≡ cs)

module _ {W : Type 0} (io : Stdio W) (libc : Libc (Machine W)) (c : Returning io libc) where
  abbrev pub Quiet : {A : Type 0} → Command W A → Type 0
  Quiet m = (s : Machine W) → Returns (λ r t. c.pending t ≡ c.pending s) (m s)

  pub Quiet->>= :
      {A B : Type 0} (m : Command W A) (k : A → Command W B)
      → Quiet m
      → ((a : A) → Quiet (k a))
      → Quiet (m >>= k)
  Quiet->>= m k hm hk s =
      Returns-and_then (λ a t. c.pending t ≡ c.pending s) (λ b u. c.pending u ≡ c.pending s) (m s) k
        (hm s)
        λ a t e.
          Returns-mono (λ b u. c.pending u ≡ c.pending t) (λ b u. c.pending u ≡ c.pending s) (k a t)
            (hk a t) λ b u e'. e' ∙ e

  write_loop-Quiet : (left it : ℕ) → Quiet (write_loop io left it)
  unfolding write_loop
  write_loop-Quiet zero it s = refl
  write_loop-Quiet (suc left) it s =
      Quiet->>= (io.write (pos 1) (drop it hello) (13 - it)) (λ n. write_loop io left (it + 1))
        (c.write (pos 1) (drop it hello) (13 - it)) (λ n. write_loop-Quiet left (it + 1)) s

  printf_loop-Quiet : (left it : ℕ) → Quiet (printf_loop io left it)
  unfolding printf_loop
  printf_loop-Quiet zero it s = refl
  printf_loop-Quiet (suc left) it s =
      Quiet->>= (io.printf (codes "it = %d! ") (it ∷ [])) (λ n. printf_loop io left (it + 1))
        (c.printf (codes "it = %d! ") (it ∷ [])) (λ n. printf_loop-Quiet left (it + 1)) s

  pub main_start-Quiet : Quiet (main_start io)
  unfolding main_start
  main_start-Quiet = Quiet->>= _ _ (c.puts _) λ u. Quiet->>= _ _ (write_loop-Quiet 12 0) λ u.
      Quiet->>= _ _ (c.puts _) λ u. Quiet->>= _ _ (c.write _ _ _) λ n.
        Quiet->>= _ _ (c.perror _) λ u. Quiet->>= _ _ (c.puts _) λ u.
          Quiet->>= _ _ (printf_loop-Quiet 16 0) λ u. Quiet->>= _ _ (c.printf _ _) λ u.
            Quiet->>= _ _ (c.puts _) λ u.
              Quiet->>= _ _ (c.malloc _)
                λ mbuf. Quiet->>= _ _ (c.strcpy _ _) λ u. Quiet->>= _ _ (c.puts _) λ u. c.free mbuf

  draw_row-Quiet : (cs : List ℕ) → Quiet (draw_row io cs)
  unfolding draw_row
  draw_row-Quiet [] s = refl
  draw_row-Quiet (x ∷ cs) s =
      Quiet->>= (io.putchar x) (λ u. draw_row io cs) (c.putchar x) (λ u. draw_row-Quiet cs) s

  pub draw-Quiet : (rows : List (List ℕ)) → Quiet (draw io rows)
  unfolding draw
  draw-Quiet [] s = Quiet->>= (io.puts []) (λ u. pure tt) (c.puts []) (λ u t. refl) s
  draw-Quiet (row ∷ rows) s =
      Quiet->>= (io.puts []) (λ u. draw_row io row >> draw io rows) (c.puts [])
        (λ u.
          Quiet->>= (draw_row io row) (λ v. draw io rows) (draw_row-Quiet row)
            (λ v. draw-Quiet rows))
        s
