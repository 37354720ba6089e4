-- ===== src/Fd/Dup2.antt =====
-- `fd_dup2` of src/linux-uefi.c.
pub mod Taken
pub mod Every
use uefilinux.Base.{
  ℕ, ◌+◌, ◌-◌, ◌≤◌, ◌<◌, ◌≡◌, ◌≢◌, ◌⊎◌, List, inl, inr, refl, ◌∙◌, false, some, length-set,
  get_elem?, get_elem?-set_self, get_elem?-set_ne, set, ltb, ◌==◌, Bool-cases, ℤ, pos, negsuc, neg,
  is_neg, if◌then◌else◌, arith,
}
use uefilinux.Efi.{Firmware}
use uefilinux.Errno.{ebadf}
use uefilinux.Machine.{Machine, ok, fault}
use uefilinux.Machine.Slots.{load_fd_lem, load_fd_outside, store_fd_outside}
use uefilinux.Fd.{
  max_fds, virtual_fd_base, to_virtual_fd, assign_fd, peek_fd, dup2_checked, dup2_assign, fd_close,
  fd_dup2, slot, check_fd,
}
use uefilinux.Fd.Table.{IsTable, IsOpen, lt-get_elem?, check_fd-slot}
use uefilinux.Fd.Close.{close-IsOpen}
use uefilinux.Fd.Dup.{assign_fd_lem}

-- A new descriptor for which `fd_dup2` leaves the table: its number is not from 4 to 19, or it is from
-- 16 on, and its own slot is free.
abbrev pub OutOfBounds : List ℕ → ℤ → Type 0
OutOfBounds fds new_fd =
    ((n : ℕ) → virtual_fd_base ≤ n → n < max_fds + virtual_fd_base → new_fd ≢ pos n)
    ⊎ ((n : ℕ) × (new_fd ≡ pos (n + virtual_fd_base))
        × (max_fds ≤ n + virtual_fd_base)
        × (get_elem? fds n ≡ some 0))

module _ {W : Type 0} (fw : Firmware W) (s : Machine W) where
  peek_fd_lem :
      (n h : ℕ) → get_elem? s.fds n ≡ some h → peek_fd fw (pos (n + virtual_fd_base)) s ≡ ok h s
  unfolding peek_fd
  peek_fd_lem n h held =
      let e : n + virtual_fd_base - virtual_fd_base ≡ n = omega arith in
      let high : ltb (n + virtual_fd_base) virtual_fd_base ≡ false = ground arith in
      rw (high, e) (load_fd_lem s n h held)

  pub dup2_assign-IsOpen :
      (fd : ℤ) (i handle : ℕ) (new_fd : ℤ)
      → IsOpen s.fds fd i handle
      → dup2_assign fw i new_fd s ≡ assign_fd fw new_fd handle s
  unfolding dup2_assign
  dup2_assign-IsOpen fd i handle new_fd o =
      let taken : (handle == 0) ≡ false = ground (arith, o.not_null) in
      rw (load_fd_lem s i handle o.holds, taken)

  -- On a table of 16 slots, `fd_dup2` of an open descriptor to a number from 4 to 15 whose own slot
  -- is free puts the handle into the slot with that number, not into the number's own, and returns
  -- 4 more.
  pub dup2_free :
      (fd : ℤ) (i handle n : ℕ)
      → IsTable s.fds
      → IsOpen s.fds fd i handle
      → n + virtual_fd_base < max_fds
      → get_elem? s.fds n ≡ some 0
      → fd_dup2 fw fd (pos (n + virtual_fd_base)) s
        ≡ ok
            (to_virtual_fd (n + virtual_fd_base))
            (record s { fds = set s.fds (n + virtual_fd_base) handle })
  unfolding fd_dup2 dup2_checked
  dup2_free fd i handle n t o lt free =
      rw (o.number, fd_dup2, check_fd-slot i o.small, peek_fd_lem n 0 free)
        (dup2_assign-IsOpen fd i handle (pos (n + virtual_fd_base)) o
          ∙ assign_fd_lem fw s (n + virtual_fd_base) handle (omega arith))

  -- On a table of 16 slots, `fd_dup2` of an open descriptor to a number that is not from 4 to 19
  -- reads outside the table.
  pub dup2_outside :
      (fd : ℤ) (i handle : ℕ) (new_fd : ℤ)
      → IsTable s.fds
      → IsOpen s.fds fd i handle
      → ((n : ℕ) → virtual_fd_base ≤ n → n < max_fds + virtual_fd_base → new_fd ≢ pos n)
      → fd_dup2 fw fd new_fd s ≡ fault
  unfolding fd_dup2 dup2_checked peek_fd
  dup2_outside fd i handle new_fd t o out =
      rw (o.number, fd_dup2, check_fd-slot i o.small, peek_outside new_fd out) refl
    where
      peek_outside :
          (new_fd : ℤ)
          → ((n : ℕ) → virtual_fd_base ≤ n → n < max_fds + virtual_fd_base → new_fd ≢ pos n)
          → peek_fd fw new_fd s ≡ fault
      peek_outside (negsuc n) out = refl
      peek_outside (pos n) out = elim (Bool-cases (ltb n virtual_fd_base)) [
        | inl low ↦ rw (peek_fd, low)
        | inr high ↦ elim (Bool-cases (ltb n (max_fds + virtual_fd_base))) [
          | inl inside ↦ absurd (out n (ground arith) (ground arith) refl)
          | inr beyond ↦ rw (peek_fd, high) (load_fd_outside s (n - virtual_fd_base) (ground arith))
        ]
      ]

  -- On a table of 16 slots, `fd_dup2` of an open descriptor to a number from 16 to 19 whose own
  -- slot is free writes outside the table.
  pub dup2_beyond :
      (fd : ℤ) (i handle n : ℕ)
      → IsTable s.fds
      → IsOpen s.fds fd i handle
      → max_fds ≤ n + virtual_fd_base
      → get_elem? s.fds n ≡ some 0
      → fd_dup2 fw fd (pos (n + virtual_fd_base)) s ≡ fault
  unfolding fd_dup2 dup2_checked assign_fd
  dup2_beyond fd i handle n t o beyond free =
      rw (o.number, fd_dup2, check_fd-slot i o.small, peek_fd_lem n 0 free)
        (dup2_assign-IsOpen fd i handle (pos (n + virtual_fd_base)) o
          ∙ rw (assign_fd, store_fd_outside s (n + virtual_fd_base) handle (omega arith)))

  -- On a table of 16 slots, `fd_dup2` of an open descriptor accesses the table out of bounds if the
  -- new number is not from 4 to 19, or if it is from 16 on and its own slot is free.
  pub dup2-OutOfBounds :
      (fd : ℤ) (i handle : ℕ) (new_fd : ℤ)
      → IsTable s.fds
      → IsOpen s.fds fd i handle
      → OutOfBounds s.fds new_fd
      → fd_dup2 fw fd new_fd s ≡ fault
  dup2-OutOfBounds fd i handle new_fd t o (inl out) = dup2_outside fd i handle new_fd t o out
  dup2-OutOfBounds fd i handle new_fd t o (inr (n, number, beyond, free)) =
      rw number (dup2_beyond fd i handle n t o beyond free)

  pub check_fd-IsOpen : (fd : ℤ) (i handle : ℕ) → IsOpen s.fds fd i handle → check_fd fd ≡ slot i
  check_fd-IsOpen fd i handle o = rw o.number (check_fd-slot i o.small)

  pub peek_fd-IsOpen :
      (fd : ℤ) (i handle : ℕ) → IsOpen s.fds fd i handle → peek_fd fw fd s ≡ ok handle s
  peek_fd-IsOpen fd i handle o = rw o.number (peek_fd_lem i handle o.holds)

  pub dup2_assign-free :
      (i : ℕ) (new_fd : ℤ)
      → get_elem? s.fds i ≡ some 0
      → dup2_assign fw i new_fd s ≡ ok (neg ebadf) s
  unfolding dup2_assign
  dup2_assign-free i new_fd free = rw (load_fd_lem s i 0 free)
