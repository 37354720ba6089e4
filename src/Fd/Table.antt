-- ===== src/Fd/Table.antt =====
-- What the checks on a descriptor find.
use uefilinux.Base.{
  ℕ, zero, suc, ◌+◌, ◌-◌, ◌≤◌, ◌<◌, ◌≡◌, ◌≢◌, refl, sym, ap, ◌∙◌, some, List, [], ◌∷◌, get_elem?,
  length, ltb, ◌==◌, if◌then◌else◌, Bool-cases, inl, inr, ◌⊎◌, ℤ, pos, negsuc, neg, arith,
}
use uefilinux.Errno.{ebadf, eacces}
use uefilinux.Machine.{Machine, ok}
use uefilinux.Machine.Slots.{load_fd_lem}
use uefilinux.Fd.{max_fds, virtual_fd_base, slot, refused, check_fd, found, missing, find_fd}

-- The array has its MAX_FDS slots.
abbrev pub IsTable : List ℕ → Type 0
IsTable fds = length fds ≡ max_fds

-- Descriptor `fd` stands for slot `i`, which holds `handle`.
pub record IsOpen (fds : List ℕ) (fd : ℤ) (i handle : ℕ) : Type 0 where
  pub number : fd ≡ pos (i + virtual_fd_base)
  pub small : i ≤ max_fds - virtual_fd_base
  pub holds : get_elem? fds i ≡ some handle
  pub not_null : handle ≢ 0

-- No call gets past the checks on descriptor `fd`: it is out of range, or its slot is free.
abbrev pub IsClosed : List ℕ → ℤ → Type 0
IsClosed fds fd = (i handle : ℕ) → ¬ IsOpen fds fd i handle

-- The error for a descriptor that is not open.
abbrev pub closed_error : ℤ → ℤ
closed_error (negsuc n) = neg eacces
closed_error (pos n) = if ltb n virtual_fd_base then neg eacces else neg ebadf

pub get_elem?-lt {ℓ} :
    {A : Type ℓ} (xs : List A) (i : ℕ) → i < length xs → (a : A) × (get_elem? xs i ≡ some a)
get_elem?-lt [] i h = absurd (omega arith)
get_elem?-lt (x ∷ xs) zero h = (x, refl)
get_elem?-lt (x ∷ xs) (suc i) h = get_elem?-lt xs i (omega arith)

pub lt-get_elem? {ℓ} :
    {A : Type ℓ} (xs : List A) (i : ℕ) {a : A} → get_elem? xs i ≡ some a → i < length xs
lt-get_elem? [] i h = cc h
lt-get_elem? (x ∷ xs) zero h = omega arith
lt-get_elem? (x ∷ xs) (suc i) h = omega (arith, lt-get_elem? xs i h)

pub check_fd-slot :
    (i : ℕ) → i ≤ max_fds - virtual_fd_base → check_fd (pos (i + virtual_fd_base)) ≡ slot i
unfolding check_fd
check_fd-slot i h = ground arith

-- What the checks make of a descriptor that is not negative.
check_fd-cases :
    (n : ℕ)
    → (check_fd (pos n) ≡ refused (closed_error (pos n)))
      ⊎ ((i : ℕ) × (n ≡ i + virtual_fd_base) × (i ≤ max_fds - virtual_fd_base))
unfolding check_fd
check_fd-cases n = elim (Bool-cases (ltb max_fds n)) [
  | inl big ↦ inl (rw big (ground arith))
  | inr fits ↦ elim (Bool-cases (ltb n virtual_fd_base)) [
    | inl low ↦ inl (rw (fits, low))
    | inr high ↦ inr (n - virtual_fd_base, ground arith, ground arith)
  ]
]

module _ {W : Type 0} (s : Machine W) where
  -- The checks find the slot and the handle of an open descriptor.
  pub find_fd-IsOpen :
      {fd : ℤ} (i handle : ℕ) → IsOpen s.fds fd i handle → find_fd fd s ≡ ok (found i handle) s
  unfolding find_fd
  find_fd-IsOpen i handle o =
      rw (o.number, find_fd, check_fd-slot i o.small, load_fd_lem s i handle o.holds)
        (ground (arith, o.not_null))

  -- On a table of MAX_FDS slots the checks never read outside it, and refuse any other descriptor.
  pub find_fd-IsClosed :
      (fd : ℤ) → IsTable s.fds → IsClosed s.fds fd → find_fd fd s ≡ ok (missing (closed_error fd)) s
  unfolding find_fd
  find_fd-IsClosed (negsuc n) t c = unfold check_fd in refl
  find_fd-IsClosed (pos n) t c = elim (check_fd-cases n) [
    | inl e ↦ rw (find_fd, e)
    | inr (i, e, le) ↦
        let (h, held) = get_elem?-lt s.fds i (omega arith) in
        elim (Bool-cases (h == 0)) [
          | inl free ↦
              rw (e, find_fd, check_fd-slot i le, load_fd_lem s i h held, free) (ground arith)
          | inr taken ↦ absurd (
              c i h
                (record { number = ap pos e; small = le; holds = held; not_null = ground arith }))
        ]
  ]

-- A descriptor is open or closed.
pub IsOpen-or_IsClosed :
    (fds : List ℕ) (fd : ℤ)
    → IsTable fds
    → ((i : ℕ) × (handle : ℕ) × IsOpen fds fd i handle) ⊎ IsClosed fds fd
IsOpen-or_IsClosed fds (negsuc n) t = inr λ i handle o. cc o.number
IsOpen-or_IsClosed fds (pos n) t = elim (check_fd-cases n) [
  | inl e ↦ inr λ i handle o. cc (sym e ∙ ap check_fd o.number ∙ check_fd-slot i o.small)
  | inr (i, e, le) ↦
      let (h, held) = get_elem?-lt fds i (omega arith) in
      elim (Bool-cases (h == 0)) [
        | inl free ↦ inr λ j handle o.
            let same : j ≡ i = ground arith in
            let both : some handle ≡ some h = sym o.holds ∙ ap (get_elem? fds) same ∙ held in
            o.not_null (ground arith)
        | inr taken ↦
            inl (
              i,
              h,
              record { number = ap pos e; small = le; holds = held; not_null = ground arith },
            )
      ]
]
