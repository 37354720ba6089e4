-- ===== src/Syscall/Results.antt =====
-- What the results of the calls have in common: a property that holds of small numbers and of the
-- negated error numbers of include/linux-uefi.h.
pub mod Tables
pub mod Others
pub mod Counts
use uefilinux.Base.{
  ℕ, ◌+◌, ◌%◌, ◌^◌, ◌<◌, ◌≡◌, refl, true, ◌==◌, if◌then◌else◌, Bool, Bool-cases, false, inl, inr,
  ◌⊎◌, none, some, Option-cases, get_elem?, contains, ltb, ℤ, pos, negsuc, neg, arith,
}
use uefilinux.Efi.{Firmware}
use uefilinux.Errno.{ebadf, eacces, errnos, efi_status_to_errno}
use uefilinux.Errno.Range.{efi_status_to_errno-listed}
use uefilinux.Machine.{Machine, Run, ok, fault, Command, pure, and_then, load_fd}
use uefilinux.Machine.After.{Results}
use uefilinux.Fd.{Checked, refused, slot, check_fd, Found, found, missing, find_fd, result_of}

pub record ResultProperty (Q : ℤ → Type 0) : Type 0 where
  pub small : (n : ℕ) → n < 2 ^ 31 → Q (pos n)
  pub error : (e : ℕ) → contains errnos e ≡ true → Q (neg e)

module _ {W : Type 0} (fw : Firmware W) (Q : ℤ → Type 0) (q : ResultProperty Q) where
  pub firmware_error : (status : ℕ) → Q (neg (efi_status_to_errno fw status))
  firmware_error status = q.error _ (efi_status_to_errno-listed fw status)

  pub result_of-Q : (status : ℕ) → Q (result_of fw status)
  unfolding result_of
  result_of-Q status = elim (Bool-cases (fw.is_error status)) [
    | inl bad ↦ rw (result_of, bad) (firmware_error status)
    | inr good ↦ rw (result_of, good) (q.small 0 (omega arith))
  ]

  -- A call that goes on where the firmware reports no error.
  pub Results-status :
      (status : ℕ) (k : Command W ℤ) (t : Machine W)
      → Results Q (k t)
      → Results Q ((if fw.is_error status then pure (neg (efi_status_to_errno fw status)) else k) t)
  Results-status status k t h = elim (Bool-cases (fw.is_error status)) [
    | inl bad ↦ rw bad (firmware_error status)
    | inr good ↦ rw good h
  ]

  pub check_fd-Q : (fd e : ℤ) → check_fd fd ≡ refused e → Q e
  unfolding check_fd
  check_fd-Q fd e h = ground (arith, q.error eacces refl, q.error ebadf refl)

  -- The checks on a descriptor read outside the table, or return an error, or find it.
  pub find_fd-cases :
      (fd : ℤ) (s : Machine W)
      → (find_fd fd s ≡ fault)
        ⊎ (((e : ℤ) × Q e × (find_fd fd s ≡ ok (missing e) s))
            ⊎ ((i handle : ℕ) × (find_fd fd s ≡ ok (found i handle) s)))
  unfolding find_fd load_fd
  find_fd-cases fd s = at (check_fd fd) refl
    where
      at :
          (c : Checked)
          → check_fd fd ≡ c
          → (find_fd fd s ≡ fault)
            ⊎ (((e : ℤ) × Q e × (find_fd fd s ≡ ok (missing e) s))
                ⊎ ((i handle : ℕ) × (find_fd fd s ≡ ok (found i handle) s)))
      at (refused e) c = inr (inl (e, check_fd-Q fd e c, rw (find_fd, c)))
      at (slot i) c = elim (Option-cases (get_elem? s.fds i)) [
        | inl out ↦ inl (rw (find_fd, c, load_fd, out))
        | inr (h, held) ↦ elim (Bool-cases (h == 0)) [
          | inl free ↦
              inr (inl (neg ebadf, q.error ebadf refl, rw (find_fd, c, load_fd, held, free)))
          | inr taken ↦ inr (inr (i, h, rw (find_fd, c, load_fd, held, taken)))
        ]
      ]

  -- A call on a descriptor: what it does with one that it finds is to be shown.
  pub Results-find :
      (fd : ℤ) (k : Found → Command W ℤ) (s : Machine W)
      → ((e : ℤ) → Q e → Results Q (k (missing e) s))
      → ((i handle : ℕ) → Results Q (k (found i handle) s))
      → Results Q (and_then (find_fd fd s) k)
  Results-find fd k s bad good = elim (find_fd-cases fd s) [
    | inl out ↦ rw out tt
    | inr (inl (e, h, refusal)) ↦ rw refusal (bad e h)
    | inr (inr (i, handle, found_it)) ↦ rw found_it (good i handle)
  ]
