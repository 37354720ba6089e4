-- ===== src/Main/Ends.antt =====
-- That `main` of src/main.c gets to its `exit`.
use mathlib.Core.List.{append_assoc}
use uefilinux.Base.{
  ℕ, zero, suc, ◌+◌, ◌^◌, ◌≤◌, ◌<◌, ◌≡◌, refl, sym, ap, ◌∙◌, List, [], ◌∷◌, ◌++◌, length, pos,
  arith,
}
use uefilinux.Machine.{Machine, Run, ok, fault, spin, Command, and_then}
use uefilinux.Machine.After.{Returns, Returns-mono, Returns-and_then}
use uefilinux.Process.Texts.{codes}
use uefilinux.Getdelim.{Libc}
use uefilinux.Getdelim.Grow.{Allocates}
use uefilinux.Getdelim.Line.{Delivers, Without}
use uefilinux.Main.{Stdio, main_start, wait_newline, main_end}
use uefilinux.Main.Input.{prompt, typed, main_line}
use uefilinux.Main.Typed.{main_line_lem}
use uefilinux.Main.Picture.{Floats, main_picture}
use uefilinux.Main.Rows.{IsExact, picture}
use uefilinux.Main.Drawn.{main_picture_lem}
use uefilinux.Main.Whole.{main}
use uefilinux.Main.Quiet.{Returning, Quiet, main_start-Quiet, draw-Quiet}

module _ {W : Type 0} (io : Stdio W) (libc : Libc (Machine W)) (c : Returning io libc) where
  -- The bytes that are pending are delivered.
  pending-Delivers :
      (line rest : List ℕ) (s : Machine W)
      → c.pending s ≡ line ++ rest
      → (t : Machine W) × Delivers libc s line t × (c.pending t ≡ rest)
  pending-Delivers [] rest s e = (s, refl, e)
  pending-Delivers (x ∷ line) rest s e =
      let (got, left) = c.read_byte x (line ++ rest) s e in
      let (t, d, after) = pending-Delivers line rest (libc.read_byte s).1 left in
      (t, ((libc.read_byte s).1, ap (λ o. (o, (libc.read_byte s).1)) got, d), after)

  -- The run comes to `exit(0)` with this input left.
  abbrev Exits : List ℕ → Run W (Unit {0}) → Type 0
  Exits rest r = (t : Machine W) × (c.pending t ≡ rest) × (r ≡ io.exit (pos 0) t)

  Exits-and_then :
      {A : Type 0} (P : A → Machine W → Type 0) (rest : List ℕ) (r : Run W A)
      (k : A → Command W (Unit {0}))
      → Returns P r
      → ((a : A) (t : Machine W) → P a t → Exits rest (k a t))
      → Exits rest (and_then r k)
  Exits-and_then P rest (ok a t) k h next = next a t h
  Exits-and_then P rest fault k h next = absurd h
  Exits-and_then P rest (spin t) k h next = absurd h

  returned_as :
      (P : Machine W → Type 0) (r : Run W (Unit {0}))
      → Returns (λ u t. P t) r
      → (t : Machine W) × (r ≡ ok tt t) × P t
  returned_as P (ok u t) h = (t, refl, h)
  returned_as P fault h = absurd h
  returned_as P (spin t) h = absurd h

  main_line-Returns :
      (line rest : List ℕ) (fuel input_len : ℕ) (s : Machine W)
      → Allocates libc
      → Without b'\n' line
      → Without 0 line
      → length line < fuel
      → length line + 5 < 2 ^ 64
      → c.pending s ≡ line ++ (b'\n' ∷ rest)
      → Returns (λ u t. c.pending t ≡ rest) (main_line io libc fuel input_len s)
  main_line-Returns line rest fuel input_len s a w text more small e =
      let (s1, shown, e1) =
        returned_as (λ t. c.pending t ≡ c.pending s) _
          (c.puts (codes "Testing getline() from stdin...") s) in
      let (s2, asked, e2) =
        returned_as (λ t. c.pending t ≡ c.pending s1) _ (c.printf prompt [] s1) in
      let (t, d, after) =
        pending-Delivers (line ++ (b'\n' ∷ [])) rest s2
          (e2 ∙ (e1 ∙ (e ∙ sym (append_assoc line (b'\n' ∷ []) rest)))) in
      rw (main_line_lem io libc fuel input_len line s s1 s2 t a shown asked d w text more small) (
        Returns-mono (λ u v. c.pending v ≡ c.pending t) (λ u v. c.pending v ≡ rest)
          (io.printf_text typed line t) (c.printf_text typed line t) λ u v e'. e' ∙ after)

  wait_newline-Returns :
      (others rest : List ℕ) (fuel : ℕ) (s : Machine W)
      → Without b'\n' others
      → length others < fuel
      → c.pending s ≡ others ++ (b'\n' ∷ rest)
      → Returns (λ u t. c.pending t ≡ rest) (wait_newline io fuel s)
  unfolding wait_newline
  wait_newline-Returns others rest zero s w more e = absurd (omega arith)
  wait_newline-Returns [] rest (suc fuel) s w more e =
      Returns-and_then (λ r t. (r ≡ b'\n') × (c.pending t ≡ rest)) (λ u t. c.pending t ≡ rest)
        (io.getchar s) _ (c.getchar b'\n' rest s e) λ r t (got, left). rw got left
  wait_newline-Returns (x ∷ others) rest (suc fuel) s (other, w) more e =
      Returns-and_then (λ r t. (r ≡ x) × (c.pending t ≡ others ++ (b'\n' ∷ rest)))
        (λ u t. c.pending t ≡ rest) (io.getchar s) _ (c.getchar x (others ++ (b'\n' ∷ rest)) s e)
        λ r t (got, left).
          rw (got, other) (wait_newline-Returns others rest fuel t w (omega arith) left)

  -- A call that takes nothing from the input comes first.
  Exits-Quiet :
      {A : Type 0} (m : Command W A) (k : A → Command W (Unit {0})) (rest left : List ℕ)
      (s : Machine W)
      → Quiet io libc c m
      → c.pending s ≡ left
      → ((a : A) (t : Machine W) → c.pending t ≡ left → Exits rest (k a t))
      → Exits rest (and_then (m s) k)
  Exits-Quiet m k rest left s q e next =
      Exits-and_then (λ a t. c.pending t ≡ c.pending s) rest (m s) k (q s)
        λ a t e'. next a t (e' ∙ e)

  main_picture-Quiet :
      (fl : Floats) (fuel : ℕ) → IsExact fl → 112 ≤ fuel → Quiet io libc c (main_picture fl io fuel)
  main_picture-Quiet fl fuel exact enough s =
      rw ((main_picture_lem fl io fuel s exact enough).0) (draw-Quiet io libc c (picture fl) s)

  -- Where every call of the C library returns, only its reads take bytes from the input, it
  -- allocates, and whole numbers up to 2 ^ 24 are exact: on an input of a line without NUL, any
  -- further bytes up to a line feed, and the rest, fuel of 112 and of more than the bytes of either
  -- part is enough for `main` to come to its `exit(0)`, with the rest of the input left.
  pub main_lem :
      (fl : Floats) (line others rest : List ℕ) (fuel input_len : ℕ) (s : Machine W)
      → IsExact fl
      → Allocates libc
      → Without b'\n' line
      → Without 0 line
      → Without b'\n' others
      → length line < fuel
      → length others < fuel
      → 112 ≤ fuel
      → length line + 5 < 2 ^ 64
      → c.pending s ≡ line ++ (b'\n' ∷ (others ++ (b'\n' ∷ rest)))
      → (t : Machine W) × (c.pending t ≡ rest)
        × (main fl io libc fuel input_len s ≡ io.exit (pos 0) t)
  unfolding main main_end
  main_lem fl line others rest fuel input_len s exact a w text w' more more' enough small e =
      let after = others ++ (b'\n' ∷ rest) in
      Exits-Quiet (main_start io) _ rest _ s (main_start-Quiet io libc c) e λ u t0 e0.
        Exits-and_then (λ u t. c.pending t ≡ after) rest (main_line io libc fuel input_len t0) _
          (main_line-Returns line after fuel input_len t0 a w text more small e0)
          λ u t1 e1. Exits-Quiet (io.puts _) _ rest after t1 (c.puts _) e1 λ u t2 e2.
            Exits-Quiet (io.sleep 5) _ rest after t2 (c.sleep 5) e2 λ u t3 e3.
              Exits-Quiet (io.puts _) _ rest after t3 (c.puts _) e3 λ u t4 e4.
                Exits-Quiet (main_picture fl io fuel) _ rest after t4
                  (main_picture-Quiet fl fuel exact enough) e4
                  λ u t5 e5. Exits-Quiet (io.sleep 1) _ rest after t5 (c.sleep 1) e5 λ u t6 e6.
                    Exits-Quiet (io.puts _) _ rest after t6 (c.puts _) e6 λ u t7 e7.
                      Exits-and_then (λ u t. c.pending t ≡ rest) rest (wait_newline io fuel t7) _
                        (wait_newline-Returns others rest fuel t7 w' more' e7)
                        λ u t8 e8. (t8, e8, refl)
