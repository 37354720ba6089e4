-- ===== src/Console/Input.antt =====
-- What a read from standard input returns, and which memory it writes.
use native.Mathlib.Numerals.{add-one}
use uefilinux.Base.{
  ℕ, zero, suc, ◌+◌, ◌%◌, ◌^◌, ◌≤◌, ◌<◌, ◌≡◌, ◌⊎◌, refl, sym, ap, ◌∙◌, true, false, ◌&&◌, Option,
  some, ◌==◌, if◌then◌else◌, Bool-cases, inl, inr, ℤ, pos, negsuc, arith,
}
use mathlib.Core.Bool.{false≢true}
use uefilinux.Efi.{Firmware}
use uefilinux.Machine.{Machine, Run, Command, Memory, and_then, pure, update}
use uefilinux.Machine.After.{Returns, Returns-mono, Returns-and_then}
use uefilinux.Console.{wait_key, echo, store_key, key_char, take_key, read_keys, fd_read}

-- The bytes outside `count` from `buf` on are as before.
abbrev pub SameOutside : {W : Type 0} → ℕ → ℕ → Machine W → Machine W → Type 0
SameOutside buf count s s' =
    (p : ℕ) → (p < buf) ⊎ (buf + count ≤ p) → s'.mem.bytes p ≡ s.mem.bytes p

-- A result that is a number with a property.
abbrev pub Number : (ℕ → Type 0) → ℤ → Type 0
Number P (pos n) = P n
Number P (negsuc n) = ⊥

module _ {W : Type 0} (fw : Firmware W) (K : ℕ → Type 0) (Good : ℕ → Type 0) (buf count : ℕ)
    (small : count + 1 < 2 ^ 32)
    (keys : (w : W) → (key : ℕ) × ((fw.read_key_stroke w).0 ≡ some key) × K key)
    (full : Good (count + 1))
    (line : (it key : ℕ)
      → it < count
      → K key
      → (key_char fw key == b'\n') ≡ true
      → Good (it + 1)) where
  abbrev Key : Machine W → Option ℕ → Machine W → Type 0
  Key s o t = ((key : ℕ) × (o ≡ some key) × K key) × (t.mem ≡ s.mem)

  wait_key-Key : (s : Machine W) → Returns (Key s) (wait_key fw s)
  unfolding wait_key
  wait_key-Key s = (keys (fw.wait_for_key (fw.stall 1000 s.world).1), refl)

  abbrev SameMemory : Machine W → Unit {0} → Machine W → Type 0
  SameMemory s u t = t.mem ≡ s.mem

  echo-SameMemory : (key : ℕ) (s : Machine W) → Returns (SameMemory s) (echo fw key s)
  unfolding echo
  echo-SameMemory key s = ground arith

  abbrev Post : Machine W → ℤ → Machine W → Type 0
  Post s r t = Number Good r × SameOutside buf count s t

  Post-trans :
      (s t : Machine W) (r : Run W ℤ)
      → SameOutside buf count s t
      → Returns (Post t) r
      → Returns (Post s) r
  Post-trans s t r e h =
      Returns-mono (Post t) (Post s) r h λ a u (good, same). (good, λ p out. same p out ∙ e p out)

  store_key-SameOutside :
      (it c : ℕ) (s t : Machine W)
      → it < count
      → t.mem ≡ s.mem
      → (p : ℕ) → (p < buf) ⊎ (buf + count ≤ p)
      → update t.mem.bytes (buf + it) c p ≡ s.mem.bytes p
  unfolding update
  store_key-SameOutside it c s t lt e p out =
      let other : (p == buf + it) ≡ false = ground arith in
      rw other (ap (λ (m : Memory). m.bytes p) e)

  after_store :
      (next : ℕ → Command W ℤ) (it key : ℕ) (s t : Machine W)
      → K key
      → it < count
      → ((u : Machine W) → Returns (Post u) (next (it + 1) u))
      → t.mem ≡ s.mem
      → Returns (Post s) (
          and_then
            (store_key fw (buf + it) (key_char fw key) t)
            λ u. if key_char fw key == b'\n' then pure (pos (it + 1)) else next (it + 1))
  unfolding store_key
  after_store next it key s t k lt go e = elim (Bool-cases (key_char fw key == b'\n')) [
    | inl ends ↦
        rw ends (line it key lt k ends, store_key-SameOutside it (key_char fw key) s t lt e)
    | inr more ↦ rw more (
        Post-trans s stored (next (it + 1) stored)
          (store_key-SameOutside it (key_char fw key) s t lt e) (go stored))
  ]
    where
      stored : Machine W
      stored = record t {
        mem = record (t.mem) { bytes = update t.mem.bytes (buf + it) (key_char fw key) };
      }

  take_key-Post :
      (next : ℕ → Command W ℤ) (it key : ℕ) (s : Machine W)
      → K key
      → it < count
      → ((u : Machine W) → Returns (Post u) (next (it + 1) u))
      → Returns (Post s) (take_key fw next buf it (some key) s)
  unfolding take_key
  take_key-Post next it key s k lt go =
      let step : (it + 1) % 2 ^ 32 ≡ it + 1 = omega arith in
      elim (Bool-cases (it == 0 && key % 256 == 8)) [
        | inl passed ↦ rw (take_key, passed, step) (go s)
        | inr kept ↦
            rw (take_key, kept, step)
              (Returns-and_then (SameMemory s) (Post s) (echo fw key s) _ (echo-SameMemory key s)
                λ u t e. after_store next it key s t k lt go e)
      ]

  read_keys-Post :
      (left it : ℕ) (s : Machine W)
      → it + left ≡ count
      → Returns (Post s) (read_keys fw (suc left) buf count it s)
  unfolding read_keys
  read_keys-Post zero it s e =
      let done : (it == count) ≡ true = ground arith in
      let step : (it + 1) % 2 ^ 32 ≡ count + 1 = omega arith in
      rw (read_keys, done, step) (full, λ p out. refl)
  read_keys-Post (suc left) it s e =
      let more : (it == count) ≡ false = ground arith in
      rw (read_keys, more)
        (Returns-and_then (Key s) (Post s) (wait_key fw s) _ (wait_key-Key s)
          λ o t (got, same). round (λ u. read_keys-Post left (it + 1) u (omega arith)) o t got same)
    where
      round :
          ((u : Machine W) → Returns (Post u) (read_keys fw (suc left) buf count (it + 1) u))
          → (o : Option ℕ) (t : Machine W) → (key : ℕ) × (o ≡ some key) × K key
          → t.mem ≡ s.mem
          → Returns (Post s) (take_key fw (λ i. read_keys fw (suc left) buf count i) buf it o t)
      round go o t (key, e', k) same = rw e' (
          Post-trans s t _ (λ p out. ap (λ (m : Memory). m.bytes p) same)
            (take_key-Post (λ i. read_keys fw (suc left) buf count i) it key t k (omega arith) go))

  -- Enough fuel is given, and the loop ends.
  pub fd_read-Post : (s : Machine W) → Returns (Post s) (fd_read fw (pos 0) buf count s)
  unfolding fd_read
  fd_read-Post s = rw add-one (read_keys-Post count 0 s (omega arith))

-- Where the firmware always delivers a key, and count + 1 is below 2 ^ 32, a read of `count` bytes
-- from standard input ends, returns a number from 1 to count + 1, and writes no byte outside the
-- caller's buffer.
pub read_console_bounds :
    {W : Type 0} (fw : Firmware W) (buf count : ℕ) (s : Machine W)
    → count + 1 < 2 ^ 32
    → ((w : W) → (key : ℕ) × ((fw.read_key_stroke w).0 ≡ some key))
    → Returns
        (λ r s'. Number (λ n. (1 ≤ n) × (n ≤ count + 1)) r × SameOutside buf count s s')
        (fd_read fw (pos 0) buf count s)
read_console_bounds fw buf count s small keys =
    fd_read-Post fw (λ key. Unit {0}) (λ n. (1 ≤ n) × (n ≤ count + 1)) buf count small
      (λ w. ((keys w).0, (keys w).1, tt)) (omega arith) (λ it key lt k e. omega arith) s

-- Where the firmware delivers keys and none of them ends the line, and count + 1 is below 2 ^ 32, a
-- read of `count` bytes from standard input returns count + 1.
pub read_console_overcount :
    {W : Type 0} (fw : Firmware W) (buf count : ℕ) (s : Machine W)
    → count + 1 < 2 ^ 32
    → ((w : W)
        → (key : ℕ) × ((fw.read_key_stroke w).0 ≡ some key) × ((key_char fw key == b'\n') ≡ false))
    → Returns (λ r s'. r ≡ pos (count + 1)) (fd_read fw (pos 0) buf count s)
read_console_overcount fw buf count s small keys =
    Returns-mono _ (λ r s'. r ≡ pos (count + 1)) (fd_read fw (pos 0) buf count s)
      (fd_read-Post fw (λ key. (key_char fw key == b'\n') ≡ false) (λ n. n ≡ count + 1) buf count
        small keys refl (λ it key lt k e. absurd (false≢true (sym k ∙ e))) s)
      (λ r s' h. number r h.0)
  where
    number : (r : ℤ) → Number (λ n. n ≡ count + 1) r → r ≡ pos (count + 1)
    number (pos n) h = ap pos h
    number (negsuc n) h = elim h [ ]
