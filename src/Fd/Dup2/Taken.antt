-- ===== src/Fd/Dup2/Taken.antt =====
-- `fd_dup2` to a descriptor that is open.
use uefilinux.Base.{
  ℕ, ◌+◌, ◌-◌, ◌<◌, ◌≡◌, ◌≢◌, ◌∙◌, false, length-set, get_elem?-set_self, get_elem?-set_ne, set,
  ◌==◌, ℤ, pos, negsuc, is_neg, if◌then◌else◌, arith,
}
use uefilinux.Efi.{Firmware}
use uefilinux.Machine.{Machine, ok}
use uefilinux.Fd.{max_fds, virtual_fd_base, to_virtual_fd, dup2_checked, fd_close, fd_dup2}
use uefilinux.Fd.Table.{IsTable, IsOpen, lt-get_elem?}
use uefilinux.Fd.Close.{close-IsOpen}
use uefilinux.Fd.Dup.{assign_fd_lem}
use uefilinux.Fd.Dup2.{dup2_assign-IsOpen, check_fd-IsOpen, peek_fd-IsOpen, dup2_assign-free}

module _ {W : Type 0} (fw : Firmware W) (s : Machine W) where
  -- `fd_dup2` of an open descriptor to itself frees its slot and returns an error.
  pub dup2_self :
      (fd : ℤ) (i handle : ℕ)
      → IsOpen s.fds fd i handle
      → (e : ℕ) × (w : W) × (fd_dup2 fw fd fd s
          ≡ ok (negsuc e) (record s { fds = set s.fds i 0; world = w }))
  unfolding fd_dup2 dup2_checked
  dup2_self fd i handle o = finish (close-IsOpen fw s fd i handle o)
    where
      taken : (handle == 0) ≡ false
      taken = ground (arith, o.not_null)

      finish :
          (r : ℤ) × (w : W) × (fd_close fw fd s
              ≡ ok r (record s { fds = set s.fds i 0; world = w }))
          → (e : ℕ) × (w : W) × (fd_dup2 fw fd fd s
              ≡ ok (negsuc e) (record s { fds = set s.fds i 0; world = w }))
      finish (negsuc e, w, closed) = (
        e,
        w,
        rw (
          fd_dup2,
          check_fd-IsOpen fw s fd i handle o,
          peek_fd-IsOpen fw s fd i handle o,
          taken,
          closed,
        ),
      )
      finish (pos n, w, closed) = (
        8,
        w,
        rw
            (
              fd_dup2,
              check_fd-IsOpen fw s fd i handle o,
              peek_fd-IsOpen fw s fd i handle o,
              taken,
              closed,
            )
            (dup2_assign-free fw (record s { fds = set s.fds i 0; world = w }) i fd
              (get_elem?-set_self s.fds i 0 (lt-get_elem? s.fds i o.holds))),
      )

  -- On a table of 16 slots, `fd_dup2` of an open descriptor to another open one below 16 closes
  -- that first and returns its error if that fails; else the handle goes into the slot with the new
  -- number, and the descriptor of that slot, 4 more, is returned.
  pub dup2_taken :
      (fd : ℤ) (i handle n taken : ℕ)
      → IsTable s.fds
      → IsOpen s.fds fd i handle
      → IsOpen s.fds (pos n) (n - virtual_fd_base) taken
      → n < max_fds
      → n ≢ i + virtual_fd_base
      → (r : ℤ) × (w : W) × (fd_close fw (pos n) s
          ≡ ok r (record s { fds = set s.fds (n - virtual_fd_base) 0; world = w }))
        × (fd_dup2 fw fd (pos n) s ≡ (
            if is_neg r
            then ok r (record s { fds = set s.fds (n - virtual_fd_base) 0; world = w })
            else ok
                (to_virtual_fd n)
                (record s { fds = set (set s.fds (n - virtual_fd_base) 0) n handle; world = w })))
  unfolding fd_dup2 dup2_checked
  dup2_taken fd i handle n taken t o o' lt ne =
      finish (close-IsOpen fw s (pos n) (n - virtual_fd_base) taken o')
    where
      held : (taken == 0) ≡ false
      held = ground (arith, o'.not_null)

      number : n ≡ n - virtual_fd_base + virtual_fd_base
      number = ground (arith, o'.number)

      finish :
          (r : ℤ) × (w : W) × (fd_close fw (pos n) s
              ≡ ok r (record s { fds = set s.fds (n - virtual_fd_base) 0; world = w }))
          → (r : ℤ) × (w : W) × (fd_close fw (pos n) s
              ≡ ok r (record s { fds = set s.fds (n - virtual_fd_base) 0; world = w }))
            × (fd_dup2 fw fd (pos n) s ≡ (
                if is_neg r
                then ok r (record s { fds = set s.fds (n - virtual_fd_base) 0; world = w })
                else ok (to_virtual_fd n) (record s {
                  fds = set (set s.fds (n - virtual_fd_base) 0) n handle;
                  world = w;
                })))
      finish (negsuc e, w, closed) = (
        negsuc e,
        w,
        closed,
        rw (
          fd_dup2,
          check_fd-IsOpen fw s fd i handle o,
          peek_fd-IsOpen fw s (pos n) (n - virtual_fd_base) taken o',
          held,
          closed,
        ),
      )
      finish (pos m, w, closed) = (
        pos m,
        w,
        closed,
        rw
            (
              fd_dup2,
              check_fd-IsOpen fw s fd i handle o,
              peek_fd-IsOpen fw s (pos n) (n - virtual_fd_base) taken o',
              held,
              closed,
            )
            (dup2_assign-IsOpen fw (record s { fds = set s.fds (n - virtual_fd_base) 0; world = w })
                fd i handle (pos n)
                (record {
                  number = o.number;
                  small = o.small;
                  not_null = o.not_null;
                  holds =
                      get_elem?-set_ne s.fds {i = n - virtual_fd_base} {j = i} 0
                        (λ e. ne (omega (arith, number)))
                      ∙ o.holds;
                })
              ∙ assign_fd_lem fw (record s { fds = set s.fds (n - virtual_fd_base) 0; world = w }) n
                  handle (omega (arith, length-set s.fds (n - virtual_fd_base) 0))),
      )
