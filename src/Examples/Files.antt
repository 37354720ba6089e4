-- ===== src/Examples/Files.antt =====
-- `fd_open`, transfers, file information and directories.
use uefilinux.Base.{
  ℕ, ◌+◌, ◌*◌, ◌-◌, ◌≤◌, ◌<◌, ◌≡◌, ◌≢◌, ◌⊎◌, inl, inr, refl, true, false, none, some, List, [], ◌∷◌,
  length, replicate, ◌==◌, bit_and, if◌then◌else◌, ℤ, pos, negsuc, neg, arith,
}
use uefilinux.Machine.{ok}
use uefilinux.Machine.After.{Returns}
use uefilinux.Wide.{max_wide, wide_loop, bstr_to_wstr}
use uefilinux.Wide.Copy.{c_string, bstr_to_wstr_lem}
use uefilinux.File.{load_bytes, fd_open}
use uefilinux.File.Open.{SameBut, Opened, open_keeps_table}
use uefilinux.File.Transfer.{read_file_lem}
use uefilinux.Console.{fd_read}
use uefilinux.Stat.{fd_fstat, fd_stat}
use uefilinux.Stat.Queries.{Answered, Looked, stat_calls_lem}
use uefilinux.Examples.Machines.{firmware, memory, shared_fds, shared}
use uefilinux.Examples.Slots.{IsOpen-5}

open_keeps_table_example :
    Returns (λ r s'. SameBut shared s' × Opened shared_fds r) (fd_open firmware 200 0 shared)
open_keeps_table_example = open_keeps_table firmware shared 200 0

bstr_to_wstr_lem_example :
    (b : List ℕ) × (bstr_to_wstr 300 shared
      ≡ ok (b'h' ∷ b'\n' ∷ b'i' ∷ []) (record shared { fres = b }))
    × (length b ≡ 1024)
    × ((wide_loop max_wide memory.bytes 300 0 shared.fres).0 * 2 + 1 < 1024)
unfolding c_string
bstr_to_wstr_lem_example = bstr_to_wstr_lem 300 shared refl

read_file_lem_example :
    (m : ℕ → ℕ) × (fd_read firmware (pos 5) 500 10 shared
      ≡ ok (pos 2) (record shared { mem = record memory { bytes = m }; world = 2 }))
    × (load_bytes m 500 2 ≡ b'h' ∷ b'i' ∷ [])
    × ((q : ℕ) → (q < 500) ⊎ (500 + 2 ≤ q) → m q ≡ memory.bytes q)
unfolding uefilinux.Base.to_long
read_file_lem_example = read_file_lem firmware shared (pos 5) 1 7 500 10 IsOpen-5

stat_calls_lem_example :
    Returns (λ r t. Answered firmware (pos 5) 900 shared r t) (fd_fstat firmware (pos 5) 900 shared)
    × Returns
        (λ r t. Looked firmware (c_string max_wide memory.bytes 300) 900 shared r t)
        (fd_stat firmware 300 900 shared)
stat_calls_lem_example = stat_calls_lem firmware (pos 5) 300 900 shared refl refl
