-- ===== src/Fd/Share.antt =====
-- `fd_dup` of src/linux-uefi.c on the map from descriptors to handles that the table stands for.
use uefilinux.Base.{
  ℕ, ◌+◌, ◌≤◌, ◌≡◌, ◌≢◌, refl, sym, ap, ◌∙◌, ◌⊎◌, inl, inr, none, some, List, get_elem?,
  get_elem?-set_self, get_elem?-set_ne, set, ltb, ltb→lt, Bool-cases, ℤ, pos, arith,
}
use uefilinux.Efi.{Firmware}
use uefilinux.Machine.{Machine}
use uefilinux.Machine.After.{Returns}
use uefilinux.Fd.{virtual_fd_base, Checked, slot, refused, check_fd, dup_found, fd_dup}
use uefilinux.Fd.Search.{FirstTaken}
use uefilinux.Fd.Table.{IsTable, IsOpen, closed_error, IsOpen-or_IsClosed, find_fd-IsClosed}
use uefilinux.Fd.Dup.{dup-FirstTaken}
use uefilinux.Fd.Total.{IsOpen-FirstTaken}
use uefilinux.Fd.View.{OpenFiles, view, check_fd-number, view-IsOpen, view-IsClosed}

-- The map `after` is `before` with the handle at the descriptor.
pub record Assigned (fd : ℤ) (handle : ℕ) (before after : OpenFiles) : Type 0 where
  pub here : after fd ≡ some handle
  pub others : (d : ℤ) → d ≢ fd → after d ≡ before d

pub view-set :
    (fds : List ℕ) (k handle : ℕ) (d : ℤ)
    → d ≢ pos (k + virtual_fd_base)
    → view (set fds k handle) d ≡ view fds d
unfolding view
view-set fds k handle d ne = at (check_fd d) refl
  where
    at : (c : Checked) → check_fd d ≡ c → view (set fds k handle) d ≡ view fds d
    at (refused e) c = rw (view, c)
    at (slot i) c =
        let (number, small) = check_fd-number d i c in
        let kept : get_elem? (set fds k handle) i ≡ get_elem? fds i =
          get_elem?-set_ne fds {i = k} {j = i} handle
            (λ e. ne (number ∙ ap (λ (n : ℕ). pos (n + virtual_fd_base)) (sym e))) in
        rw (view, c, kept)

-- The first taken slot is not behind a slot that is taken.
FirstTaken-le :
    (fds : List ℕ) (fd : ℤ) (i handle k : ℕ) → IsOpen fds fd i handle → FirstTaken fds k → k ≤ i
FirstTaken-le fds fd i handle k o f = elim (Bool-cases (ltb i k)) [
  | inl early ↦
      let free : some handle ≡ some 0 = sym o.holds ∙ f.before i (ltb→lt i k early) in
      absurd (o.not_null (ground arith))
  | inr late ↦ ground arith
]

module _ {W : Type 0} (fw : Firmware W) (fd : ℤ) (s : Machine W) where
  -- On a table of 16 slots `fd_dup` returns for every descriptor, with the memory and the firmware
  -- as before: for one that stands for a handle it returns the descriptor of the first slot that
  -- was taken, which then stands for the same handle, and no other descriptor changes; for any
  -- other it returns the error for it, with no slot changed.
  pub dup_refines :
      IsTable s.fds
      → Returns
          (λ r t.
            (t.world ≡ s.world)
            × (t.mem ≡ s.mem)
            × (((handle k : ℕ) × (view s.fds fd ≡ some handle)
                  × FirstTaken s.fds k
                  × (r ≡ pos (k + virtual_fd_base))
                  × Assigned r handle (view s.fds) (view t.fds))
                ⊎ ((view s.fds fd ≡ none) × (r ≡ closed_error fd) × (t.fds ≡ s.fds))))
          (fd_dup fw fd s)
  unfolding fd_dup dup_found
  dup_refines t = elim (IsOpen-or_IsClosed s.fds fd t) [
    | inl (i, handle, o) ↦
        let (k, f) = IsOpen-FirstTaken s.fds fd i handle o in
        rw (dup-FirstTaken fw s fd i handle k o f) (
          refl,
          refl,
          inl (handle, k, view-IsOpen s.fds fd i handle o, f, refl, assigned i handle k o f),
        )
    | inr c ↦
        rw (find_fd-IsClosed s fd t c) (refl, refl, inr (view-IsClosed s.fds fd c, refl, refl))
  ]
    where
      assigned :
          (i handle k : ℕ)
          → IsOpen s.fds fd i handle
          → FirstTaken s.fds k
          → Assigned (pos (k + virtual_fd_base)) handle (view s.fds) (view (set s.fds k handle))
      assigned i handle k o f =
          let le : k ≤ i = FirstTaken-le s.fds fd i handle k o f in
          record {
            here = view-IsOpen (set s.fds k handle) (pos (k + virtual_fd_base)) k handle (record {
              number = refl;
              small = omega (arith, o.small);
              holds = get_elem?-set_self s.fds k handle f.in_range;
              not_null = o.not_null;
            });
            others = λ d ne. view-set s.fds k handle d ne;
          }
