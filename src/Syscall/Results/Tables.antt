-- ===== src/Syscall/Results/Tables.antt =====
-- The results of `fd_close`, `fd_fsync`, `fd_dup` and `fd_dup2`.
use uefilinux.Base.{
  ℕ, ◌+◌, ◌-◌, ◌<◌, ◌≡◌, refl, ◌==◌, if◌then◌else◌, Bool-cases, inl, inr, length, ltb, List, [],
  ◌∷◌, ℤ, pos, negsuc, is_neg, get_elem?, Option-cases, ◌∙◌, arith,
}
use uefilinux.Efi.{Firmware}
use uefilinux.Errno.{ebadf, emfile}
use uefilinux.Machine.{Machine, Run, ok, fault, spin, pure, ◌>>=◌, and_then, load_fd, store_fd}
use uefilinux.Machine.After.{Results, Results-and_then, Returns, Returns-mono}
use uefilinux.Fd.{
  Checked, refused, slot, check_fd, result_of, fd_real_for_handle, fd_real_find_free,
  find_free_from, fd_real_reset, fd_close, fd_fsync, assign_fd, dup_found, fd_dup, peek_fd,
  dup2_assign, dup2_checked, fd_dup2,
}
use uefilinux.Fd.Table.{IsTable, lt-get_elem?}
use uefilinux.Fd.Total.{close_total}
use uefilinux.Syscall.Results.{ResultProperty, result_of-Q, check_fd-Q, Results-find}

find_free_from-lt : (fds : List ℕ) (it n : ℕ) → find_free_from it fds ≡ pos n → n < it + length fds
unfolding find_free_from
find_free_from-lt [] it n e = cc e
find_free_from-lt (h ∷ fds) it n e = ground (arith, find_free_from-lt fds (it + 1) n)

pub find_free-lt : (fds : List ℕ) (n : ℕ) → length fds ≡ 16 → fd_real_find_free fds ≡ pos n → n < 16
unfolding fd_real_find_free
find_free-lt fds n t e = omega (arith, find_free_from-lt fds 0 n e, t)

module _ {W : Type 0} (fw : Firmware W) (Q : ℤ → Type 0) (q : ResultProperty Q) where
  pub Results-fd_close : (fd : ℤ) (s : Machine W) → Results Q (fd_close fw fd s)
  unfolding fd_close
  Results-fd_close fd s =
      Results-find fw Q q fd _ s (λ e h. h)
        λ i handle. Results-and_then Q (fd_real_reset i s) _ λ u t. closed handle t
    where
      closed :
          (handle : ℕ) (t : Machine W)
          → Results Q (
              (if fd_real_for_handle handle t.fds == 0
                  then (λ t.
                      and_then
                        (ok
                          (fw.close handle t.world).0
                          (record t { world = (fw.close handle t.world).1 }))
                        (λ status. pure (result_of fw status)))
                  else pure (pos 0))
                t)
      closed handle t = elim (Bool-cases (fd_real_for_handle handle t.fds == 0)) [
        | inl last ↦ rw last (result_of-Q fw Q q (fw.close handle t.world).0)
        | inr more ↦ rw more (q.small 0 (omega arith))
      ]

  pub Results-fd_fsync : (fd : ℤ) (s : Machine W) → Results Q (fd_fsync fw fd s)
  unfolding fd_fsync
  Results-fd_fsync fd s =
      Results-find fw Q q fd _ s (λ e h. h)
        λ i handle. result_of-Q fw Q q (fw.flush handle s.world).0

  -- Only a slot of the table is written.
  Results-assign :
      (r : ℤ) (handle : ℕ) (s : Machine W) → IsTable s.fds → Results Q (assign_fd fw r handle s)
  unfolding assign_fd store_fd
  Results-assign (negsuc n) handle s t = q.error emfile refl
  Results-assign (pos n) handle s t = elim (Option-cases (get_elem? s.fds n)) [
    | inl out ↦ rw (assign_fd, store_fd, out) tt
    | inr (h, held) ↦
        rw (assign_fd, store_fd, held)
          (q.small (n + 4) (omega (arith, lt-get_elem? s.fds n held, t)))
  ]

  pub Results-fd_dup : (fd : ℤ) (s : Machine W) → IsTable s.fds → Results Q (fd_dup fw fd s)
  unfolding fd_dup dup_found
  Results-fd_dup fd s t =
      Results-find fw Q q fd _ s (λ e h. h)
        λ i handle. Results-assign (fd_real_find_free s.fds) handle s t

  Results-dup2_assign :
      (i : ℕ) (new_fd : ℤ) (s : Machine W) → IsTable s.fds → Results Q (dup2_assign fw i new_fd s)
  unfolding dup2_assign load_fd
  Results-dup2_assign i new_fd s t = elim (Option-cases (get_elem? s.fds i)) [
    | inl out ↦ rw (dup2_assign, load_fd, out) tt
    | inr (h, held) ↦ elim (Bool-cases (h == 0)) [
      | inl free ↦ rw (dup2_assign, load_fd, held, free) (q.error ebadf refl)
      | inr taken ↦ rw (dup2_assign, load_fd, held, taken) (Results-assign new_fd h s t)
    ]
  ]

  -- The close comes first, and its error is the result.
  closed_first :
      (r : Run W ℤ) (i : ℕ) (new_fd : ℤ)
      → Results Q r
      → Returns (λ a t. IsTable t.fds) r
      → Results Q (and_then r (λ res. if is_neg res then pure res else dup2_assign fw i new_fd))
  closed_first (ok (pos n) u) i new_fd h t = Results-dup2_assign i new_fd u t
  closed_first (ok (negsuc n) u) i new_fd h t = h
  closed_first fault i new_fd h t = tt
  closed_first (spin u) i new_fd h t = tt

  close-IsTable :
      (fd : ℤ) (s : Machine W) → IsTable s.fds → Returns (λ a t. IsTable t.fds) (fd_close fw fd s)
  close-IsTable fd s t =
      Returns-mono _ (λ a u. IsTable u.fds) (fd_close fw fd s) (close_total fw s fd t)
        λ r u (other, closed, mem). other.size ∙ t

  pub Results-fd_dup2 :
      (old_fd new_fd : ℤ) (s : Machine W) → IsTable s.fds → Results Q (fd_dup2 fw old_fd new_fd s)
  unfolding fd_dup2 dup2_checked peek_fd load_fd
  Results-fd_dup2 old_fd (negsuc n) s t = checked (check_fd old_fd) refl
    where
      checked : (c : Checked) → check_fd old_fd ≡ c → Results Q (dup2_checked fw c (negsuc n) s)
      checked (refused e) h = check_fd-Q fw Q q old_fd e h
      checked (slot i) h = tt
  Results-fd_dup2 old_fd (pos n) s t = checked (check_fd old_fd) refl
    where
      looked_up :
          (i : ℕ)
          → Results Q (
              and_then (load_fd (n - 4) s) (λ taken.
                if taken == 0
                then dup2_assign fw i (pos n)
                else (fd_close fw (pos n) >>= λ res.
                    if is_neg res then pure res else dup2_assign fw i (pos n))))
      looked_up i = elim (Option-cases (get_elem? s.fds (n - 4))) [
        | inl out ↦ rw (load_fd, out) tt
        | inr (h, held) ↦ elim (Bool-cases (h == 0)) [
          | inl free ↦ rw (load_fd, held, free) (Results-dup2_assign i (pos n) s t)
          | inr taken ↦
              rw (load_fd, held, taken)
                (closed_first (fd_close fw (pos n) s) i (pos n) (Results-fd_close (pos n) s)
                  (close-IsTable (pos n) s t))
        ]
      ]

      checked : (c : Checked) → check_fd old_fd ≡ c → Results Q (dup2_checked fw c (pos n) s)
      checked (refused e) h = check_fd-Q fw Q q old_fd e h
      checked (slot i) h = elim (Bool-cases (ltb n 4)) [
        | inl low ↦ rw (peek_fd, low) tt
        | inr high ↦ rw (peek_fd, high) (looked_up i)
      ]
