-- ===== src/Examples/Consoles.antt =====
-- Writes to and reads from the console.
use uefilinux.Base.{
  ℕ, zero, suc, ◌+◌, ◌≤◌, ◌≡◌, refl, true, some, List, [], ◌∷◌, get_elem?, drop, pos, arith,
  to_long,
}
use uefilinux.Efi.{Firmware}
use uefilinux.Machine.{ok, fault}
use uefilinux.Machine.After.{Returns}
use uefilinux.File.{load_bytes, store_bytes}
use uefilinux.Console.{fd_read, fd_write}
use uefilinux.Console.Convert.{translate}
use uefilinux.Console.Output.{fd_write_console}
use uefilinux.Console.Input.{SameOutside, Number, read_console_bounds}
use uefilinux.Console.Keyboard.{Keyboard, Typed, char, line_end}
use uefilinux.Console.Line.{read_console_line}
use uefilinux.Examples.Machines.{firmware, shared}

fd_write_console_example : fd_write firmware (pos 1) 300 3 shared ≡ ok (pos 3) shared
unfolding load_bytes translate to_long
fd_write_console_example = fd_write_console firmware shared 1 300 3 refl (omega arith)

-- A line feed alone: its two characters fill `str_buf`.
line_feed_alone : fd_write firmware (pos 1) 301 1 shared ≡ fault
unfolding load_bytes translate to_long
line_feed_alone = fd_write_console firmware shared 1 301 1 refl (omega arith)

read_console_bounds_example :
    Returns
      (λ r s'. Number (λ n. (1 ≤ n) × (n ≤ 5)) r × SameOutside 500 4 shared s')
      (fd_read firmware (pos 0) 500 4 shared)
read_console_bounds_example =
    read_console_bounds firmware 500 4 shared (omega arith) (λ w. (b'a', refl))

-- The firmware with a keyboard on which a line was typed: its state is the number of keys read.
abbrev keys : List ℕ
keys = b'h' ∷ b'i' ∷ b'\r' ∷ b'x' ∷ []

abbrev typing : Firmware ℕ
typing = record firmware { read_key_stroke = λ w. (get_elem? keys w, w + 1) }

pub drop-get_elem? :
    (xs : List ℕ) (n k : ℕ) (ks : List ℕ)
    → drop n xs ≡ k ∷ ks
    → (get_elem? xs n ≡ some k) × (drop (n + 1) xs ≡ ks)
drop-get_elem? [] zero k ks e = cc e
drop-get_elem? [] (suc n) k ks e = cc e
drop-get_elem? (x ∷ xs) zero k ks e = (cc e, cc e)
drop-get_elem? (x ∷ xs) (suc n) k ks e =
    let next : suc n + 1 ≡ suc (n + 1) = omega arith in rw next (drop-get_elem? xs n k ks e)

abbrev keyboard : Keyboard typing
keyboard = record {
  pending = λ w. drop w keys;
  stall_keeps = λ n w. refl;
  wait_keeps = λ w. refl;
  output_keeps = λ text w. refl;
  key = λ k ks w e. drop-get_elem? keys w k ks e;
}

keys-Typed : Typed typing 8 keys (b'h' ∷ b'i' ∷ b'\n' ∷ []) true
keys-Typed = char refl (char refl (line_end refl))

read_console_line_example :
    Returns
      (λ r t.
        (r ≡ pos 3)
        × (t.mem ≡ record (shared.mem) {
          bytes = store_bytes shared.mem.bytes 500 (b'h' ∷ b'i' ∷ b'\n' ∷ []);
        })
        × (drop t.world keys ≡ b'x' ∷ []))
      (fd_read typing (pos 0) 500 8 shared)
read_console_line_example =
    read_console_line typing keyboard 500 8 keys (b'h' ∷ b'i' ∷ b'\n' ∷ []) true shared
      (omega arith) refl refl keys-Typed
