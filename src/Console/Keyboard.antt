-- ===== src/Console/Keyboard.antt =====
-- The keys that are typed, and what they give a line read from standard input.
use uefilinux.Base.{
  ℕ, suc, ◌%◌, ◌≡◌, refl, ◌∙◌, Bool, true, false, some, List, [], ◌∷◌, ◌==◌, Bool-cases, inl, inr,
}
use uefilinux.Efi.{Firmware}
use uefilinux.Machine.{Machine, Memory}
use uefilinux.Machine.After.{Returns}
use uefilinux.Console.{wait_key, echo, key_char}

-- The firmware keeps the keys that were typed until they are read, and no other call of the read from
-- standard input takes one.
pub record Keyboard {W : Type 0} (fw : Firmware W) : Type 0 where
  pub pending : W → List ℕ
  pub stall_keeps : (n : ℕ) (w : W) → pending (fw.stall n w).1 ≡ pending w
  pub wait_keeps : (w : W) → pending (fw.wait_for_key w) ≡ pending w
  pub output_keeps : (text : List ℕ) (w : W) → pending (fw.output_string text w).1 ≡ pending w
  pub key :
      (k : ℕ) (ks : List ℕ) (w : W)
      → pending w ≡ k ∷ ks
      → ((fw.read_key_stroke w).0 ≡ some k) × (pending (fw.read_key_stroke w).1 ≡ ks)

-- What the keys give a buffer of `count` bytes: the bytes up to the first line end and with it, or
-- as many as fit, if none of these ends the line.
pub data Typed {W : Type 0} (fw : Firmware W) : ℕ → List ℕ → List ℕ → Bool → Type 0 where
  full : {ks : List ℕ} → Typed fw 0 ks [] false
  line_end :
      {count k : ℕ} {ks : List ℕ}
      → (key_char fw k == b'\n') ≡ true
      → Typed fw (suc count) (k ∷ ks) (b'\n' ∷ []) true
  char :
      {count k : ℕ} {ks bytes : List ℕ} {ended : Bool}
      → (key_char fw k == b'\n') ≡ false
      → Typed fw count ks bytes ended
      → Typed fw (suc count) (k ∷ ks) (key_char fw k ∷ bytes) ended

-- The first key is no backspace.
abbrev pub NoErase : List ℕ → Type 0
NoErase [] = Unit {0}
NoErase (k ∷ ks) = (k % 256 == 8) ≡ false

pub no_keys :
    {W : Type 0} (fw : Firmware W) (n : ℕ) (bytes : List ℕ) (ended : Bool)
    → Typed fw (suc n) [] bytes ended
    → ⊥
no_keys fw n bytes ended typed = elim typed [ ]

module _ {W : Type 0} (fw : Firmware W) (board : Keyboard fw) where
  -- The keys that are left, and the memory.
  abbrev pub Left : List ℕ → Memory → Machine W → Type 0
  Left ks m t = (board.pending t.world ≡ ks) × (t.mem ≡ m)

  pub wait_key-Left :
      (k : ℕ) (ks : List ℕ) (s : Machine W)
      → board.pending s.world ≡ k ∷ ks
      → Returns (λ o t. (o ≡ some k) × Left ks s.mem t) (wait_key fw s)
  unfolding wait_key
  wait_key-Left k ks s e =
      let (got, left) =
        board.key k ks (fw.wait_for_key (fw.stall 1000 s.world).1)
          (board.wait_keeps (fw.stall 1000 s.world).1 ∙ board.stall_keeps 1000 s.world ∙ e) in
      (got, (left, refl))

  pub echo-Left :
      (k : ℕ) (ks : List ℕ) (s : Machine W)
      → board.pending s.world ≡ ks
      → Returns (λ u t. Left ks s.mem t) (echo fw k s)
  unfolding echo
  echo-Left k ks s e = elim (Bool-cases (k % 256 == b'\r')) [
    | inl return ↦ rw return (board.output_keeps _ _ ∙ (board.output_keeps _ _ ∙ e), refl)
    | inr other ↦ rw other (board.output_keeps _ _ ∙ e, refl)
  ]
