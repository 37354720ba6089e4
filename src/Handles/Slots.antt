-- ===== src/Handles/Slots.antt =====
-- The calls that write the descriptor table: `fd_close`, `fd_dup` and `fd_dup2`.
use native.Mathlib.Decide.{ℕ_discrete}
use uefilinux.Base.{
  ℕ, zero, suc, ◌-◌, ◌<◌, ◌≡◌, ◌≢◌, refl, sym, ap, ◌∙◌, ◌⊎◌, inl, inr, true, Bool-cases,
  Option-cases, some, List, [], ◌∷◌, get_elem?, get_or, set, length, length-set, get_elem?-set_self,
  get_elem?-set_ne, ltb, ◌==◌, ==_iff, is_neg, ℤ, pos, negsuc, arith,
}
use uefilinux.Efi.{Firmware}
use uefilinux.Machine.{Machine, load_fd}
use uefilinux.Machine.After.{After}
use uefilinux.Machine.Slots.{store_fd_outside}
use uefilinux.Machine.Preserves.{Preserves, Preserves-pure, Preserves->>=, Preserves-if}
use uefilinux.Handles.{Handles, IsOwned}
use uefilinux.Fd.{
  virtual_fd_base, fd_real_for_handle, fd_real_find_free, fd_close, assign_fd, dup_found, fd_dup,
  slot, refused, check_fd, peek_fd, dup2_assign, dup2_checked, fd_dup2, found,
}
use uefilinux.Fd.Search.{Absent, fd_real_find_free_lem, fd_real_for_handle_zero}
use uefilinux.Fd.Table.{IsOpen, IsOpen-or_IsClosed, lt-get_elem?, find_fd-IsOpen, find_fd-IsClosed}
use uefilinux.Fd.Close.{cleared, reset-IsOpen}
use uefilinux.Fd.Dup.{assign_fd_lem}

-- What a slot holds after one was set.
get_elem?-set-cases :
    (fds : List ℕ) (i new j h : ℕ)
    → get_elem? (set fds i new) j ≡ some h
    → ((j ≡ i) × (h ≡ new)) ⊎ (get_elem? fds j ≡ some h)
get_elem?-set-cases fds i new j h held = elim (ℕ_discrete j i) [
  | yes e ↦
      let inside : i < length fds =
        omega (arith, length-set fds i new, lt-get_elem? (set fds i new) j held, e) in
      let same : some h ≡ some new =
        sym held ∙ ap (get_elem? (set fds i new)) e ∙ get_elem?-set_self fds i new inside in
      inl (e, cc same)
  | no ne ↦ inr (sym (get_elem?-set_ne fds {i = i} {j = j} new (λ e. ne (sym e))) ∙ held)
]

-- The first slot stays free where no handle is put into it.
first-set :
    (fds : List ℕ) (i new : ℕ)
    → get_elem? fds 0 ≡ some 0
    → (new ≡ 0) ⊎ (i ≢ 0)
    → get_elem? (set fds i new) 0 ≡ some 0
first-set [] i new e fits = e
first-set (x ∷ fds) zero new e (inl z) = ap some z
first-set (x ∷ fds) zero new e (inr ne) = absurd (ne refl)
first-set (x ∷ fds) (suc i) new e fits = e

-- So it is not the first that holds a handle.
find_free-not_first : (fds : List ℕ) → get_elem? fds 0 ≡ some 0 → fd_real_find_free fds ≢ pos 0
find_free-not_first fds free e = not_taken fds free ((rw e at (fd_real_find_free_lem fds)).1.taken)
  where
    not_taken : (l : List ℕ) → get_elem? l 0 ≡ some 0 → get_or l 0 0 ≢ 0 → ⊥
    not_taken [] f taken = taken refl
    not_taken (x ∷ l) f taken = taken (cc f)

module _ {W : Type 0} {fw : Firmware W} (d : Handles fw) where
  -- A slot may be freed, and any but the first may be given a handle that is open.
  IsOwned-set :
      (s : Machine W) (i new : ℕ)
      → IsOwned d s
      → (new ≡ 0) ⊎ ((i ≢ 0) × (d.is_open new s.world ≡ true) × (new ≢ s.volume))
      → IsOwned d (record s { fds = set s.fds i new })
  IsOwned-set s i new o fits = record {
    table = length-set s.fds i new ∙ o.table;
    first_free =
        first-set s.fds i new o.first_free
          (elim fits [ inl z ↦ inl z | inr (ne, opened, apart) ↦ inr ne ]);
    held = λ j h e ne. elim (get_elem?-set-cases s.fds i new j h e) [
      | inl (at, is) ↦ elim fits [
        | inl z ↦ absurd (ne (is ∙ z))
        | inr (first, opened, apart) ↦ rw is (opened, apart)
      ]
      | inr old ↦ o.held j h old ne
    ];
    volume_open = o.volume_open;
    clean = o.clean;
  }

  close_found :
      (fd : ℤ) (i handle : ℕ) (s : Machine W)
      → IsOpen s.fds fd i handle
      → IsOwned d s
      → After (IsOwned d) (fd_close fw fd s)
  unfolding fd_close
  close_found fd i handle s p o =
      elim (Bool-cases (fd_real_for_handle handle (set s.fds i 0) == 0)) [
        | inl last ↦
            rw (find_fd-IsOpen s i handle p, reset-IsOpen fw s fd i handle p, last)
              (closed_last (o.held i handle p.holds p.not_null) last)
        | inr used ↦
            rw (find_fd-IsOpen s i handle p, reset-IsOpen fw s fd i handle p, used)
              (IsOwned-set s i 0 o (inl refl))
      ]
    where
      freed : IsOwned d (cleared i s)
      freed = IsOwned-set s i 0 o (inl refl)

      nowhere :
          (get_elem? (set s.fds i 0) 0 ≡ some handle) ⊎ Absent handle (set s.fds i 0)
          → Absent handle (set s.fds i 0)
      nowhere (inl e) = absurd (p.not_null (cc (sym e ∙ freed.first_free)))
      nowhere (inr absent) = absent

      closed_last :
          (d.is_open handle s.world ≡ true) × (handle ≢ s.volume)
          → (fd_real_for_handle handle (set s.fds i 0) == 0) ≡ true
          → IsOwned d (record s { fds = set s.fds i 0; world = (fw.close handle s.world).1 })
      closed_last (opened, apart) last =
          let absent : Absent handle (set s.fds i 0) =
            nowhere ((fd_real_for_handle_zero handle (set s.fds i 0)).0 ((==_iff _ _).0 last)) in
          record {
            table = freed.table;
            first_free = freed.first_free;
            held = λ j h e ne. (
              d.close_open handle h s.world (λ (same : h ≡ handle). absent j (e ∙ ap some same))
                  ((freed.held j h e ne).0),
              (freed.held j h e ne).1,
            );
            volume_open =
                d.close_open handle s.volume s.world
                  (λ (same : s.volume ≡ handle). apart (sym same)) o.volume_open;
            clean = d.close_clean handle s.world opened o.clean;
          }

  pub Preserves-close : (fd : ℤ) → Preserves (IsOwned d) (fd_close fw fd)
  unfolding fd_close
  Preserves-close fd = record {
    after = λ s o. elim (IsOpen-or_IsClosed s.fds fd o.table) [
      | inl (i, handle, p) ↦ close_found fd i handle s p o
      | inr c ↦ rw (find_fd-IsClosed s fd o.table c) o
    ];
  }

  assign-IsOwned :
      (r : ℤ) (handle : ℕ) (s : Machine W)
      → IsOwned d s
      → r ≢ pos 0
      → (d.is_open handle s.world ≡ true) × (handle ≢ s.volume)
      → After (IsOwned d) (assign_fd fw r handle s)
  unfolding assign_fd
  assign-IsOwned (negsuc n) handle s o ne h = o
  assign-IsOwned (pos n) handle s o ne h = elim (Bool-cases (ltb n (length s.fds))) [
    | inl inside ↦
        rw (assign_fd_lem fw s n handle (ground arith))
          (IsOwned-set s n handle o (inr ((λ e. ne (ap pos e)), h.0, h.1)))
    | inr outside ↦ rw (store_fd_outside s n handle (ground arith)) tt
  ]

  dup_taken :
      (i handle : ℕ) (s : Machine W)
      → get_elem? s.fds i ≡ some handle
      → handle ≢ 0
      → IsOwned d s
      → After (IsOwned d) (dup_found fw (found i handle) s)
  unfolding dup_found
  dup_taken i handle s holds not_null o =
      assign-IsOwned (fd_real_find_free s.fds) handle s o (find_free-not_first s.fds o.first_free)
        (o.held i handle holds not_null)

  pub Preserves-dup : (fd : ℤ) → Preserves (IsOwned d) (fd_dup fw fd)
  unfolding fd_dup
  Preserves-dup fd = record {
    after = λ s o. elim (IsOpen-or_IsClosed s.fds fd o.table) [
      | inl (i, handle, p) ↦
          rw (find_fd-IsOpen s i handle p) (dup_taken i handle s p.holds p.not_null o)
      | inr c ↦ rw (find_fd-IsClosed s fd o.table c) (unfold dup_found in o)
    ];
  }

  Preserves-dup2_assign :
      (i : ℕ) (new_fd : ℤ) → new_fd ≢ pos 0 → Preserves (IsOwned d) (dup2_assign fw i new_fd)
  unfolding dup2_assign load_fd
  Preserves-dup2_assign i new_fd ne = record {
    after = λ s o. elim (Option-cases (get_elem? s.fds i)) [
      | inl outside ↦ rw (dup2_assign, load_fd, outside) tt
      | inr (handle, holds) ↦ elim (Bool-cases (handle == 0)) [
        | inl free ↦ rw (dup2_assign, load_fd, holds, free) o
        | inr taken ↦
            rw (dup2_assign, load_fd, holds, taken)
              (assign-IsOwned new_fd handle s o ne (o.held i handle holds (ground arith)))
      ]
    ];
  }

  Preserves-load_fd : (i : ℕ) → Preserves (IsOwned d) (load_fd {W = W} i)
  unfolding load_fd
  Preserves-load_fd i = record {
    after = λ s o. elim (Option-cases (get_elem? s.fds i)) [
      | inl outside ↦ rw (load_fd, outside) tt
      | inr (handle, holds) ↦ rw (load_fd, holds) o
    ];
  }

  Preserves-dup2_slot : (i n : ℕ) → Preserves (IsOwned d) (dup2_checked fw (slot i) (pos n))
  unfolding dup2_checked peek_fd
  Preserves-dup2_slot i n = elim (Bool-cases (ltb n virtual_fd_base)) [
    | inl low ↦ rw low (record { after = λ s o. tt })
    | inr high ↦
        let ne : pos n ≢ pos 0 = λ e. ground arith in
        rw high (
          Preserves->>= (IsOwned d) _ _ (Preserves-load_fd (n - virtual_fd_base)) λ taken.
            Preserves-if (IsOwned d) (taken == 0) _ _ (Preserves-dup2_assign i (pos n) ne) (
              Preserves->>= (IsOwned d) _ _ (Preserves-close (pos n)) λ res.
                Preserves-if (IsOwned d) (is_neg res) _ _ (Preserves-pure (IsOwned d) res)
                  (Preserves-dup2_assign i (pos n) ne)))
  ]

  pub Preserves-dup2 : (old_fd new_fd : ℤ) → Preserves (IsOwned d) (fd_dup2 fw old_fd new_fd)
  unfolding fd_dup2
  Preserves-dup2 old_fd new_fd =
      elim (check_fd old_fd) as (λ c. Preserves (IsOwned d) (dup2_checked fw c new_fd)) [
        | refused e ↦ unfold dup2_checked in Preserves-pure (IsOwned d) e
        | slot i ↦ elim new_fd as (λ z. Preserves (IsOwned d) (dup2_checked fw (slot i) z)) [
          | pos n ↦ Preserves-dup2_slot i n
          | negsuc n ↦ unfold dup2_checked peek_fd in record { after = λ s o. tt }
        ]
      ]
