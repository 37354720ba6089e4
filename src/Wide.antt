-- ===== src/Wide.antt =====
-- `bstr_to_wstr` of src/linux-uefi.c: a byte string copied into the static buffer `fres` as CHAR16
-- characters.
pub mod Copy
use uefilinux.Base.{ℕ, zero, suc, ◌+◌, ◌*◌, List, [], ◌∷◌, set, ◌==◌, if◌then◌else◌}
use uefilinux.Machine.{Machine, ok, Command}

-- sizeof(fres)/2 - 2
abbrev pub max_wide : ℕ
max_wide = 510

-- The loop, with the rounds that are left until `it` is `max_wide`: the last `it` and the buffer. The
-- indices go up, so that none is outside a buffer that has room for the terminator at the last.
unfoldable pub wide_loop : ℕ → (ℕ → ℕ) → ℕ → ℕ → List ℕ → ℕ × List ℕ
wide_loop zero input p it fres = (it, fres)
wide_loop (suc left) input p it fres =
    let rest =
      wide_loop left input p (it + 1) (set (set fres (it * 2) (input (p + it))) (it * 2 + 1) 0) in
    if input (p + it) == 0 then (it, fres) else rest

unfoldable pub wide_buffer : (ℕ → ℕ) → ℕ → List ℕ → List ℕ
wide_buffer input p fres =
    let (it, b) = wide_loop max_wide input p 0 fres in set (set b (it * 2) 0) (it * 2 + 1) 0

-- The CHAR16 string at the start of a buffer of little-endian pairs, up to its terminator.
unfoldable pub read_wide : List ℕ → List ℕ
read_wide (lo ∷ hi ∷ rest) = if lo + hi * 256 == 0 then [] else (lo + hi * 256) ∷ read_wide rest
read_wide _ = []

-- `bstr_to_wstr`: the string that the returned pointer shows to the firmware.
unfoldable pub bstr_to_wstr : {W : Type 0} → ℕ → Command W (List ℕ)
bstr_to_wstr input s =
    let b = wide_buffer s.mem.bytes input s.fres in ok (read_wide b) (record s { fres = b })
