-- ===== src/Fd/Close.antt =====
-- `fd_close` and `fd_fsync` of src/linux-uefi.c on every branch.
use native.Mathlib.Decide.{ℕ_discrete}
use uefilinux.Base.{
  ℕ, ◌≡◌, ◌≢◌, ◌<◌, ◌⊎◌, sym, ap, ◌∙◌, length, length-set, inl, inr, false, some, get_elem?,
  get_elem?-set_self, get_elem?-set_ne, set, ◌==◌, ==_iff, Bool-cases, ℤ, pos, arith,
}
use uefilinux.Efi.{Firmware}
use uefilinux.Machine.{Machine, ok}
use uefilinux.Machine.Slots.{store_fd_lem}
use uefilinux.Fd.{fd_real_for_handle, fd_real_reset, result_of, fd_close, fd_fsync}
use uefilinux.Fd.Search.{Absent, fd_real_for_handle_zero}
use uefilinux.Fd.Table.{
  IsTable, IsOpen, IsClosed, closed_error, lt-get_elem?, find_fd-IsOpen, find_fd-IsClosed,
}

-- The state with slot `i` free.
abbrev pub cleared : {W : Type 0} → ℕ → Machine W → Machine W
cleared i s = record s { fds = set s.fds i 0 }

module _ {W : Type 0} (fw : Firmware W) (s : Machine W) where
  pub reset-IsOpen :
      (fd : ℤ) (i handle : ℕ) → IsOpen s.fds fd i handle → fd_real_reset i s ≡ ok tt (cleared i s)
  unfolding fd_real_reset
  reset-IsOpen fd i handle o = store_fd_lem s i handle 0 o.holds

  used_elsewhere :
      (i handle k : ℕ)
      → k ≢ i
      → get_elem? s.fds k ≡ some handle
      → get_elem? (set s.fds i 0) 0 ≢ some handle
      → (fd_real_for_handle handle (set s.fds i 0) == 0) ≡ false
  used_elsewhere i handle k ne held not_first =
      elim (Bool-cases (fd_real_for_handle handle (set s.fds i 0) == 0)) [
        | inr more ↦ more
        | inl none_left ↦ absurd (
            nowhere ((fd_real_for_handle_zero handle (set s.fds i 0)).0 ((==_iff _ _).0 none_left)))
      ]
    where
      nowhere : (get_elem? (set s.fds i 0) 0 ≡ some handle) ⊎ Absent handle (set s.fds i 0) → ⊥
      nowhere (inl e) = not_first e
      nowhere (inr absent) =
          absent k (get_elem?-set_ne s.fds {i = i} {j = k} 0 (λ e. ne (sym e)) ∙ held)

  used_nowhere :
      (i handle : ℕ)
      → handle ≢ 0
      → ((k : ℕ) → k ≢ i → get_elem? s.fds k ≢ some handle)
      → Absent handle (set s.fds i 0)
  used_nowhere i handle not_null only k held = elim (ℕ_discrete k i) [
    | yes e ↦
        let inside : i < length s.fds =
          omega (arith, length-set s.fds i 0, lt-get_elem? (set s.fds i 0) k held, e) in
        let same : some handle ≡ some 0 =
          sym held ∙ ap (get_elem? (set s.fds i 0)) e ∙ get_elem?-set_self s.fds i 0 inside in
        not_null (cc same)
    | no ne ↦ only k ne (sym (get_elem?-set_ne s.fds {i = i} {j = k} 0 (λ e. ne (sym e))) ∙ held)
  ]

  -- If another slot holds the handle of an open descriptor, and slot 0 does not hold it after the
  -- call, `fd_close` frees the slot, changes nothing else and returns 0.
  pub close_shared :
      (fd : ℤ) (i handle k : ℕ)
      → IsOpen s.fds fd i handle
      → k ≢ i
      → get_elem? s.fds k ≡ some handle
      → get_elem? (set s.fds i 0) 0 ≢ some handle
      → fd_close fw fd s ≡ ok (pos 0) (cleared i s)
  unfolding fd_close
  close_shared fd i handle k o ne held not_first = rw (
    find_fd-IsOpen s i handle o,
    reset-IsOpen fd i handle o,
    used_elsewhere i handle k ne held not_first,
  )

  -- If no other slot holds the handle of an open descriptor, or slot 0 still holds it after the
  -- call, `fd_close` frees the slot, closes the handle in the firmware, and returns 0 or the error
  -- of its status.
  pub close_last :
      (fd : ℤ) (i handle : ℕ)
      → IsOpen s.fds fd i handle
      → (get_elem? (set s.fds i 0) 0 ≡ some handle)
        ⊎ ((k : ℕ) → k ≢ i → get_elem? s.fds k ≢ some handle)
      → fd_close fw fd s ≡ (
          let (status, w) = fw.close handle s.world in
          ok (result_of fw status) (record s { fds = set s.fds i 0; world = w }))
  unfolding fd_close
  close_last fd i handle o only = rw (
    find_fd-IsOpen s i handle o,
    reset-IsOpen fd i handle o,
    (fd_real_for_handle_zero handle (set s.fds i 0)).1 (unused only),
  )
    where
      unused :
          (get_elem? (set s.fds i 0) 0 ≡ some handle)
            ⊎ ((k : ℕ) → k ≢ i → get_elem? s.fds k ≢ some handle)
          → (get_elem? (set s.fds i 0) 0 ≡ some handle) ⊎ Absent handle (set s.fds i 0)
      unused (inl e) = inl e
      unused (inr only) = inr (used_nowhere i handle o.not_null only)

  -- A descriptor that is not open: EACCES below 4, else EBADF, and nothing changes.
  pub close_closed :
      (fd : ℤ)
      → IsTable s.fds
      → IsClosed s.fds fd
      → (fd_close fw fd s ≡ ok (closed_error fd) s) × (fd_fsync fw fd s ≡ ok (closed_error fd) s)
  unfolding fd_close fd_fsync
  close_closed fd t c = (rw (find_fd-IsClosed s fd t c), rw (find_fd-IsClosed s fd t c))

  pub fsync-IsOpen :
      (fd : ℤ) (i handle : ℕ)
      → IsOpen s.fds fd i handle
      → fd_fsync fw fd s ≡ (
          let (status, w) = fw.flush handle s.world in
          ok (result_of fw status) (record s { world = w }))
  unfolding fd_fsync
  fsync-IsOpen fd i handle o = rw (find_fd-IsOpen s i handle o)

  -- In every case the call frees the slot, and changes nothing else but the firmware's state.
  pub close-IsOpen :
      (fd : ℤ) (i handle : ℕ)
      → IsOpen s.fds fd i handle
      → (r : ℤ) × (w : W) × (fd_close fw fd s ≡ ok r (record s { fds = set s.fds i 0; world = w }))
  unfolding fd_close
  close-IsOpen fd i handle o = elim (Bool-cases (fd_real_for_handle handle (set s.fds i 0) == 0)) [
    | inl e ↦
        let (status, w) = fw.close handle s.world in
        (result_of fw status, w, rw (find_fd-IsOpen s i handle o, reset-IsOpen fd i handle o, e))
    | inr e ↦ (pos 0, s.world, rw (find_fd-IsOpen s i handle o, reset-IsOpen fd i handle o, e))
  ]
