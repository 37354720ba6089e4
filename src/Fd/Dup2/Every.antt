-- ===== src/Fd/Dup2/Every.antt =====
-- `fd_dup2` to any descriptor from 4 to 15, open or not.
use uefilinux.Base.{
  ℕ, ◌+◌, ◌-◌, ◌≤◌, ◌<◌, ◌≡◌, ◌≢◌, ap, ◌∙◌, inl, inr, none, some, get_elem?, set, ◌==◌, Bool-cases,
  is_neg, if◌then◌else◌, false, neg, get_elem?-set_self, ℤ, pos, arith,
}
use uefilinux.Efi.{Firmware}
use uefilinux.Machine.{Machine, Run, ok, pure, and_then}
use uefilinux.Errno.{ebadf}
use uefilinux.Fd.{
  dup2_checked, dup2_assign, max_fds, virtual_fd_base, to_virtual_fd, fd_close, fd_dup2,
}
use uefilinux.Fd.Table.{IsTable, IsOpen, IsClosed, IsOpen-or_IsClosed, get_elem?-lt, lt-get_elem?}
use uefilinux.Fd.Close.{close-IsOpen}
use uefilinux.Fd.View.{view, view-IsOpen, view-IsClosed}
use uefilinux.Fd.Dup2.{dup2_free, check_fd-IsOpen, peek_fd-IsOpen, dup2_assign-free}
use uefilinux.Fd.Dup2.Taken.{dup2_taken}

module _ {W : Type 0} (fw : Firmware W) (s : Machine W) where
  -- What the new descriptor stands for is closed first.
  abbrev pub make_room : ℕ → Run W ℤ
  make_room n = elim (view s.fds (pos n)) [ none ↦ ok (pos 0) s | some h ↦ fd_close fw (pos n) s ]

  slot-IsClosed :
      (n : ℕ)
      → IsTable s.fds
      → virtual_fd_base ≤ n
      → n < max_fds
      → IsClosed s.fds (pos n)
      → get_elem? s.fds (n - virtual_fd_base) ≡ some 0
  slot-IsClosed n t low high c =
      let (h, held) = get_elem?-lt s.fds (n - virtual_fd_base) (omega arith) in
      elim (Bool-cases (h == 0)) [
        | inl free ↦ let e : h ≡ 0 = ground arith in held ∙ ap some e
        | inr taken ↦ absurd (
            c (n - virtual_fd_base) h (record {
              number = ap pos (omega arith);
              small = omega arith;
              holds = held;
              not_null = ground arith;
            }))
      ]

  -- Another number than the descriptor's own.
  dup2_other :
      (fd : ℤ) (i handle n : ℕ)
      → IsTable s.fds
      → IsOpen s.fds fd i handle
      → virtual_fd_base ≤ n
      → n < max_fds
      → pos n ≢ fd
      → fd_dup2 fw fd (pos n) s
        ≡ and_then (make_room n) (λ r u.
          if is_neg r then ok r u else ok (to_virtual_fd n) (record u { fds = set u.fds n handle }))
  dup2_other fd i handle n t o low high ne = elim (IsOpen-or_IsClosed s.fds (pos n) t) [
    | inl (j, h, p) ↦
        let same : j ≡ n - virtual_fd_base = ground (arith, p.number) in
        let p' : IsOpen s.fds (pos n) (n - virtual_fd_base) h = rw same at p in
        let (r, w, closed, done) =
          dup2_taken fw s fd i handle n h t o p' high (λ e. ne (ground (arith, o.number))) in
        rw (make_room, view-IsOpen s.fds (pos n) j h p, closed, done)
    | inr c ↦
        let back : n - virtual_fd_base + virtual_fd_base ≡ n = omega arith in
        let put : fd_dup2 fw fd (pos (n - virtual_fd_base + virtual_fd_base)) s
            ≡ ok (to_virtual_fd (n - virtual_fd_base + virtual_fd_base))
                (record s { fds = set s.fds (n - virtual_fd_base + virtual_fd_base) handle }) =
          dup2_free fw s fd i handle (n - virtual_fd_base) t o (omega arith)
            (slot-IsClosed n t low high c) in
        rw (make_room, view-IsClosed s.fds (pos n) c) (rw back at put)
  ]

  -- The descriptor's own number.
  dup2_same :
      (n i handle : ℕ)
      → IsOpen s.fds (pos n) i handle
      → fd_dup2 fw (pos n) (pos n) s
        ≡ and_then (make_room n) (λ r u. if is_neg r then ok r u else ok (neg ebadf) u)
  unfolding fd_dup2 dup2_checked
  dup2_same n i handle o =
      let taken : (handle == 0) ≡ false = ground (arith, o.not_null) in
      let (r, w, closed) = close-IsOpen fw s (pos n) i handle o in
      let u = record s { fds = set s.fds i 0; world = w } in
      let free : get_elem? u.fds i ≡ some 0 =
        get_elem?-set_self s.fds i 0 (lt-get_elem? s.fds i o.holds) in
      let start : fd_dup2 fw (pos n) (pos n) s
          ≡ and_then (fd_close fw (pos n) s)
              (λ r u. (if is_neg r then pure r else dup2_assign fw i (pos n)) u) =
        rw (
          fd_dup2,
          check_fd-IsOpen fw s (pos n) i handle o,
          peek_fd-IsOpen fw s (pos n) i handle o,
          taken,
        ) in
      start ∙ elim (Bool-cases (is_neg r)) [
        | inl bad ↦ rw (make_room, view-IsOpen s.fds (pos n) i handle o, closed, bad)
        | inr good ↦
            rw (make_room, view-IsOpen s.fds (pos n) i handle o, closed, good)
              (dup2_assign-free fw u i (pos n) free)
      ]

  -- On a table of 16 slots, `fd_dup2` of an open descriptor to a number from 4 to 15, open or not:
  -- what that stands for is closed first, and the error of the close is returned if it fails; else
  -- the result is EBADF if the number is the descriptor's own, and for any other number the handle
  -- goes into the slot with the new number, not into the number's own, and the descriptor of that
  -- slot, 4 more, is returned.
  pub dup2_lem :
      (fd : ℤ) (i handle n : ℕ)
      → IsTable s.fds
      → IsOpen s.fds fd i handle
      → virtual_fd_base ≤ n
      → n < max_fds
      → fd_dup2 fw fd (pos n) s
        ≡ and_then (make_room n) (λ r u.
          if is_neg r
          then ok r u
          else if n == i + virtual_fd_base
          then ok (neg ebadf) u
          else ok (to_virtual_fd n) (record u { fds = set u.fds n handle }))
  dup2_lem fd i handle n t o low high = elim (Bool-cases (n == i + virtual_fd_base)) [
    | inl own ↦
        let same : fd ≡ pos n = o.number ∙ ap pos (ground arith) in
        rw (own, same) (dup2_same n i handle (rw same at o))
    | inr other ↦ rw other (dup2_other fd i handle n t o low high (λ e. ground (arith, o.number)))
  ]
