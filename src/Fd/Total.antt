-- ===== src/Fd/Total.antt =====
-- The calls on one descriptor for every descriptor, open or not: that they return, and what they leave
-- of the table.
use uefilinux.Base.{
  ℕ, zero, suc, ◌+◌, ◌-◌, ◌≡◌, ◌≢◌, ◌⊎◌, inl, inr, refl, sym, ap, ◌∙◌, some, List, [], ◌∷◌,
  get_elem?, get_or, set, length, length-set, get_elem?-set_ne, get_elem?-set_self, ℤ, pos, negsuc,
  arith,
}
use uefilinux.Efi.{Firmware}
use uefilinux.Machine.{Machine}
use uefilinux.Machine.After.{Returns}
use uefilinux.Fd.{fd_close, fd_dup, dup_found, fd_real_find_free, virtual_fd_base}
use uefilinux.Fd.Search.{AllFree-get_or, FirstTaken, FreeSearch, fd_real_find_free_lem}
use uefilinux.Fd.Table.{
  IsTable, IsOpen, IsClosed, closed_error, IsOpen-or_IsClosed, lt-get_elem?, find_fd-IsClosed,
}
use uefilinux.Fd.Close.{close-IsOpen, close_closed}
use uefilinux.Fd.Dup.{dup-FirstTaken}

-- Every slot but the descriptor's own holds what it held.
pub record OtherSlots (fd : ℤ) (before after : List ℕ) : Type 0 where
  pub size : length after ≡ length before
  pub same : (j : ℕ) → fd ≢ pos (j + virtual_fd_base) → get_elem? after j ≡ get_elem? before j

get_or-get_elem? : (xs : List ℕ) (i a : ℕ) → get_elem? xs i ≡ some a → get_or xs i 0 ≡ a
get_or-get_elem? [] i a e = cc e
get_or-get_elem? (x ∷ xs) zero a e = ground arith
get_or-get_elem? (x ∷ xs) (suc i) a e = get_or-get_elem? xs i a e

-- A table with a taken slot has a first one.
pub IsOpen-FirstTaken :
    (fds : List ℕ) (fd : ℤ) (i handle : ℕ) → IsOpen fds fd i handle → (k : ℕ) × FirstTaken fds k
IsOpen-FirstTaken fds fd i handle o = of_search (fd_real_find_free fds) (fd_real_find_free_lem fds)
  where
    of_search : (r : ℤ) → FreeSearch 0 fds r → (k : ℕ) × FirstTaken fds k
    of_search (pos k) f = (k - 0, f.1)
    of_search (negsuc n) f =
        absurd (o.not_null (sym (get_or-get_elem? fds i handle o.holds) ∙ AllFree-get_or fds i f.1))

module _ {W : Type 0} (fw : Firmware W) (s : Machine W) where
  -- On a table of 16 slots `fd_close` returns for every descriptor and every reply of the firmware,
  -- changes no other slot and no memory, and leaves the descriptor closed.
  pub close_total :
      (fd : ℤ)
      → IsTable s.fds
      → Returns
          (λ r t. OtherSlots fd s.fds t.fds × IsClosed t.fds fd × (t.mem ≡ s.mem))
          (fd_close fw fd s)
  close_total fd t = elim (IsOpen-or_IsClosed s.fds fd t) [
    | inl (i, handle, o) ↦
        let (r, w, e) = close-IsOpen fw s fd i handle o in
        rw e (freed i handle o, now_closed i handle o, refl)
    | inr c ↦
        rw (close_closed fw s fd t c).0 (record { size = refl; same = λ j other. refl }, c, refl)
  ]
    where
      freed : (i handle : ℕ) → IsOpen s.fds fd i handle → OtherSlots fd s.fds (set s.fds i 0)
      freed i handle o = record {
        size = length-set s.fds i 0;
        same = λ j other.
            get_elem?-set_ne s.fds {i = i} {j = j} 0
              (λ e. other (o.number ∙ ap (λ (n : ℕ). pos (n + virtual_fd_base)) e));
      }

      now_closed : (i handle : ℕ) → IsOpen s.fds fd i handle → IsClosed (set s.fds i 0) fd
      now_closed i handle o j h p =
          let same : j ≡ i = ground arith in
          let zeroed : some h ≡ some 0 =
            sym p.holds
            ∙ ap (get_elem? (set s.fds i 0)) same
            ∙ get_elem?-set_self s.fds i 0 (lt-get_elem? s.fds i o.holds) in
          p.not_null (ground arith)

  -- On a table of 16 slots `fd_dup` returns for every descriptor without a firmware call and keeps
  -- the table's size; for an open one it returns the descriptor of a slot that then holds the same
  -- handle, for any other the error of a closed descriptor, with nothing changed.
  pub dup_total :
      (fd : ℤ)
      → IsTable s.fds
      → Returns
          (λ r t.
            (t.world ≡ s.world)
            × (length t.fds ≡ length s.fds)
            × (((i handle k : ℕ) × IsOpen s.fds fd i handle
                  × (r ≡ pos (k + virtual_fd_base))
                  × (get_elem? t.fds k ≡ some handle))
                ⊎ (IsClosed s.fds fd × (r ≡ closed_error fd) × (t ≡ s))))
          (fd_dup fw fd s)
  unfolding fd_dup dup_found
  dup_total fd t = elim (IsOpen-or_IsClosed s.fds fd t) [
    | inl (i, handle, o) ↦
        let (k, f) = IsOpen-FirstTaken s.fds fd i handle o in
        rw (dup-FirstTaken fw s fd i handle k o f) (
          refl,
          length-set s.fds k handle,
          inl (i, handle, k, o, refl, get_elem?-set_self s.fds k handle f.in_range),
        )
    | inr c ↦ rw (find_fd-IsClosed s fd t c) (refl, refl, inr (c, refl, refl))
  ]
