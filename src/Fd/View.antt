-- ===== src/Fd/View.antt =====
-- The descriptor table as its caller sees it: which descriptor stands for which handle.
use uefilinux.Base.{
  ℕ, ◌+◌, ◌-◌, ◌≤◌, ◌≡◌, ◌≢◌, refl, sym, ◌∙◌, Option, none, some, Option-cases, List, get_elem?,
  ◌==◌, if◌then◌else◌, Bool-cases, false, inl, inr, ℤ, pos, negsuc, arith,
}
use uefilinux.Efi.{Firmware}
use uefilinux.Machine.{Machine}
use uefilinux.Machine.After.{Returns, Returns-mono}
use uefilinux.Fd.{max_fds, virtual_fd_base, Checked, slot, refused, check_fd, fd_close}
use uefilinux.Fd.Table.{IsTable, IsOpen, IsClosed, check_fd-slot}
use uefilinux.Fd.Total.{OtherSlots, close_total}

-- What the caller knows: a partial map from descriptors to handles.
abbrev pub OpenFiles : Type 0
OpenFiles = ℤ → Option ℕ

-- A slot with 0 holds no handle.
abbrev held_handle : Option ℕ → Option ℕ
held_handle none = none
held_handle (some h) = if h == 0 then none else some h

unfoldable pub view : List ℕ → OpenFiles
view fds fd = elim (check_fd fd) [ refused e ↦ none | slot i ↦ held_handle (get_elem? fds i) ]

-- The map `after` is `before` without the descriptor.
pub record Removed (fd : ℤ) (before after : OpenFiles) : Type 0 where
  pub gone : after fd ≡ none
  pub others : (d : ℤ) → d ≢ fd → after d ≡ before d

pub check_fd-number :
    (fd : ℤ) (i : ℕ)
    → check_fd fd ≡ slot i
    → (fd ≡ pos (i + virtual_fd_base)) × (i ≤ max_fds - virtual_fd_base)
unfolding check_fd
check_fd-number (negsuc n) i e = cc e
check_fd-number (pos n) i e = ground arith

pub view-IsClosed : (fds : List ℕ) (fd : ℤ) → IsClosed fds fd → view fds fd ≡ none
unfolding view
view-IsClosed fds fd closed = at (check_fd fd) refl
  where
    at : (c : Checked) → check_fd fd ≡ c → view fds fd ≡ none
    at (refused e) c = rw (view, c)
    at (slot i) c = elim (Option-cases (get_elem? fds i)) [
      | inl out ↦ rw (view, c, out)
      | inr (h, held) ↦ elim (Bool-cases (h == 0)) [
        | inl free ↦ rw (view, c, held, free)
        | inr taken ↦
            let (number, small) = check_fd-number fd i c in
            absurd (
              closed i h
                (record { number = number; small = small; holds = held; not_null = ground arith }))
      ]
    ]

pub view-IsOpen :
    (fds : List ℕ) (fd : ℤ) (i handle : ℕ) → IsOpen fds fd i handle → view fds fd ≡ some handle
unfolding view
view-IsOpen fds fd i handle o =
    let taken : (handle == 0) ≡ false = ground (arith, o.not_null) in
    rw (o.number, view, check_fd-slot i o.small, o.holds, taken)

pub view-OtherSlots :
    (fd d : ℤ) (before after : List ℕ)
    → OtherSlots fd before after
    → d ≢ fd
    → view after d ≡ view before d
unfolding view
view-OtherSlots fd d before after other ne = at (check_fd d) refl
  where
    at : (c : Checked) → check_fd d ≡ c → view after d ≡ view before d
    at (refused e) c = rw (view, c)
    at (slot i) c =
        let (number, small) = check_fd-number d i c in
        let kept : get_elem? after i ≡ get_elem? before i =
          other.same i (λ e. ne (number ∙ sym e)) in
        rw (view, c, kept)

-- On a table of 16 slots, for every descriptor, open or not, and every reply of the firmware,
-- `fd_close` returns, and takes the descriptor and no other out of the map from descriptors to
-- handles that the table stands for; the memory is as before.
pub close_refines :
    {W : Type 0} (fw : Firmware W) (fd : ℤ) (s : Machine W)
    → IsTable s.fds
    → Returns (λ r t. Removed fd (view s.fds) (view t.fds) × (t.mem ≡ s.mem)) (fd_close fw fd s)
close_refines fw fd s t =
    Returns-mono _ (λ r u. Removed fd (view s.fds) (view u.fds) × (u.mem ≡ s.mem))
      (fd_close fw fd s) (close_total fw s fd t)
      λ r u (other, closed, mem). (
        record {
          gone = view-IsClosed u.fds fd closed;
          others = λ d ne. view-OtherSlots fd d s.fds u.fds other ne;
        },
        mem,
      )
