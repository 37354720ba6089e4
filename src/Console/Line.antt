-- ===== src/Console/Line.antt =====
-- What a read from standard input makes of the keys that are typed.
use uefilinux.Base.{
  ℕ, zero, suc, ◌+◌, ◌%◌, ◌^◌, ◌<◌, ◌≡◌, refl, ap, ◌∙◌, Bool, true, false, ◌&&◌, some, List, [],
  ◌∷◌, drop, length, ◌==◌, if◌then◌else◌, inl, inr, ◌⊎◌, ℤ, pos, arith,
}
use uefilinux.Efi.{Firmware}
use uefilinux.Machine.{Machine, Memory, Command, update}
use uefilinux.Machine.After.{Returns, Returns-mono, Returns-and_then}
use uefilinux.File.{store_bytes}
use uefilinux.Console.{wait_key, echo, store_key, key_char, take_key, read_keys, fd_read}
use uefilinux.Console.Keyboard.{
  Keyboard, Typed, full, line_end, char, NoErase, no_keys, wait_key-Left, echo-Left,
}

module _ {W : Type 0} (fw : Firmware W) (board : Keyboard fw) where
  -- What the loop leaves that has read the bytes from index `it` on.
  abbrev Post : ℕ → ℕ → List ℕ → List ℕ → Bool → Machine W → ℤ → Machine W → Type 0
  Post buf it ks bytes ended s r t =
      (r ≡ pos (it + length bytes + (if ended then 0 else 1)))
      × (t.mem ≡ record (s.mem) { bytes = store_bytes s.mem.bytes (buf + it) bytes })
      × (board.pending t.world ≡ drop (length bytes) ks)

  take_key-Post :
      (next : ℕ → Command W ℤ) (buf it count k : ℕ) (ks bytes : List ℕ) (ended : Bool)
      (s : Machine W)
      → it + 1 < 2 ^ 32
      → (it == 0 && k % 256 == 8) ≡ false
      → board.pending s.world ≡ ks
      → Typed fw (suc count) (k ∷ ks) bytes ended
      → ((bs : List ℕ) (e : Bool) (u : Machine W)
          → Typed fw count ks bs e
          → board.pending u.world ≡ ks
          → Returns (Post buf (it + 1) ks bs e u) (next (it + 1) u))
      → Returns (Post buf it (k ∷ ks) bytes ended s) (take_key fw next buf it (some k) s)
  unfolding take_key store_key store_bytes
  take_key-Post next buf it count k ks bytes ended s small kept e (line_end ends) go =
      let step : (it + 1) % 2 ^ 32 ≡ it + 1 = omega arith in
      let newline : key_char fw k ≡ b'\n' = ground arith in
      rw (take_key, kept, step)
        (Returns-and_then _ (Post buf it (k ∷ ks) (b'\n' ∷ []) true s) (echo fw k s) _
          (echo-Left fw board k ks s e)
          λ u t (left, same).
            rw (ends, newline)
              (
                ap pos (omega arith),
                ap (λ (m : Memory). record m { bytes = update m.bytes (buf + it) b'\n' }) same,
                left,
              ))
  take_key-Post next buf it count k ks bytes ended s small kept e (char {bytes = bs} more typed)
        go =
      let step : (it + 1) % 2 ^ 32 ≡ it + 1 = omega arith in
      rw (take_key, kept, step)
        (Returns-and_then _ (Post buf it (k ∷ ks) (key_char fw k ∷ bs) ended s) (echo fw k s) _
          (echo-Left fw board k ks s e)
          λ u t (left, same). rw more (
            Returns-mono (Post buf (it + 1) ks bs ended (stored t))
              (Post buf it (k ∷ ks) (key_char fw k ∷ bs) ended s) (next (it + 1) (stored t))
              (go bs ended (stored t) typed left) (λ r v h. shifted t same r v h)))
    where
      stored : Machine W → Machine W
      stored t = record t {
        mem = record (t.mem) { bytes = update t.mem.bytes (buf + it) (key_char fw k) };
      }

      shifted :
          (t : Machine W)
          → t.mem ≡ s.mem
          → (r : ℤ) (v : Machine W) → Post buf (it + 1) ks bs ended (stored t) r v
          → Post buf it (k ∷ ks) (key_char fw k ∷ bs) ended s r v
      shifted t same r v (number, mem, left) =
          let at : buf + (it + 1) ≡ buf + it + 1 = omega arith in
          let sum : it + 1 + length bs + (if ended then 0 else 1)
              ≡ it + suc (length bs) + (if ended then 0 else 1) =
            omega arith in
          (
            number ∙ ap pos sum,
            mem
                ∙ (ap
                      (λ (p : ℕ). record (stored t).mem {
                        bytes = store_bytes (stored t).mem.bytes p bs;
                      })
                      at
                    ∙ ap
                        (λ (m : Memory). record m {
                          bytes =
                              store_bytes (update m.bytes (buf + it) (key_char fw k)) (buf + it + 1)
                                bs;
                        })
                        same),
            left,
          )

  Post-mem :
      (buf it : ℕ) (ks bytes : List ℕ) (ended : Bool) (s t : Machine W)
      → t.mem ≡ s.mem
      → (r : ℤ) (v : Machine W) → Post buf it ks bytes ended t r v
      → Post buf it ks bytes ended s r v
  Post-mem buf it ks bytes ended s t same r v (number, mem, left) = (
    number,
    mem ∙ ap (λ (m : Memory). record m { bytes = store_bytes m.bytes (buf + it) bytes }) same,
    left,
  )

  -- The loop with the rounds that are left.
  read_keys-Post :
      (count left it buf : ℕ) (ks bytes : List ℕ) (ended : Bool) (s : Machine W)
      → count + 1 < 2 ^ 32
      → it + left ≡ count
      → NoErase ks ⊎ (0 < it)
      → Typed fw left ks bytes ended
      → board.pending s.world ≡ ks
      → Returns (Post buf it ks bytes ended s) (read_keys fw (suc left) buf count it s)
  unfolding read_keys store_bytes
  read_keys-Post count zero it buf ks bytes ended s small e first full pending =
      let done : (it == count) ≡ true = ground arith in
      let step : (it + 1) % 2 ^ 32 ≡ it + 1 = omega arith in
      rw (read_keys, done, step) (ap pos (omega arith), refl, pending)
  read_keys-Post count (suc left) it buf [] bytes ended s small e first typed pending =
      absurd (no_keys fw left bytes ended typed)
  read_keys-Post count (suc left) it buf (k ∷ ks) bytes ended s small e first typed pending =
      let more : (it == count) ≡ false = ground arith in
      let kept : (it == 0 && k % 256 == 8) ≡ false = elim first [
        | inl f ↦ ground arith
        | inr p ↦ ground arith
      ] in
      rw (read_keys, more)
        (Returns-and_then _ (Post buf it (k ∷ ks) bytes ended s) (wait_key fw s) _
          (wait_key-Left fw board k ks s pending)
          λ o t (got, (now, same)). rw got (
            Returns-mono (Post buf it (k ∷ ks) bytes ended t) (Post buf it (k ∷ ks) bytes ended s) _
              (take_key-Post (λ i. read_keys fw (suc left) buf count i) buf it left k ks bytes ended
                t (omega arith) kept now typed
                λ bs e' u typed' pending'.
                  read_keys-Post count left (it + 1) buf ks bs e' u small (omega arith)
                    (inr (omega arith)) typed' pending')
              (λ r v h. Post-mem buf it (k ∷ ks) bytes ended s t same r v h)))

  -- Where the firmware keeps the typed keys until they are read, the keys fill the buffer or end a
  -- line in it, the first is no backspace, and count + 1 is below 2 ^ 32: a read of `count` bytes
  -- from standard input writes the keys' bytes up to the first line end, as a line feed, or as many
  -- as fit, and no other byte; it takes as many keys, and returns their number after a line end,
  -- but one more where no key ends the line.
  pub read_console_line :
      (buf count : ℕ) (ks bytes : List ℕ) (ended : Bool) (s : Machine W)
      → count + 1 < 2 ^ 32
      → board.pending s.world ≡ ks
      → NoErase ks
      → Typed fw count ks bytes ended
      → Returns
          (λ r t.
            (r ≡ pos (if ended then length bytes else length bytes + 1))
            × (t.mem ≡ record (s.mem) { bytes = store_bytes s.mem.bytes buf bytes })
            × (board.pending t.world ≡ drop (length bytes) ks))
          (fd_read fw (pos 0) buf count s)
  unfolding fd_read
  read_console_line buf count ks bytes ended s small pending first typed =
      let one : count + 1 ≡ suc count = omega arith in
      rw one (
        Returns-mono (Post buf 0 ks bytes ended s) Read (read_keys fw (suc count) buf count 0 s)
          (read_keys-Post count count 0 buf ks bytes ended s small (omega arith) (inl first) typed
            pending)
          λ r t (number, mem, left). (
            number ∙ ap pos (total (length bytes) ended),
            mem ∙ ap (λ (p : ℕ). record (s.mem) { bytes = store_bytes s.mem.bytes p bytes }) start,
            left,
          ))
    where
      Read : ℤ → Machine W → Type 0
      Read r t =
          (r ≡ pos (if ended then length bytes else length bytes + 1))
          × (t.mem ≡ record (s.mem) { bytes = store_bytes s.mem.bytes buf bytes })
          × (board.pending t.world ≡ drop (length bytes) ks)

      start : buf + 0 ≡ buf
      start = omega arith

      total : (n : ℕ) (e : Bool) → 0 + n + (if e then 0 else 1) ≡ (if e then n else n + 1)
      total n true = omega arith
      total n false = omega arith
