-- ===== src/Fd/Search.antt =====
-- What the two searches through the descriptor table find.
use uefilinux.Base.{
  ℕ, zero, suc, ◌+◌, ◌-◌, ◌≤◌, ◌<◌, ◌≡◌, ◌≢◌, refl, ap, ◌∙◌, false, some, List, [], ◌∷◌, get_elem?,
  get_or, length, ◌==◌, Bool-cases, inl, inr, ◌⊎◌, ◌↔◌, ℤ, pos, negsuc, arith,
}
use uefilinux.Fd.{find_free_from, fd_real_find_free, for_handle_from, fd_real_for_handle}

-- No slot holds a handle.
abbrev pub AllFree : List ℕ → Type 0
AllFree [] = Unit {0}
AllFree (h ∷ rest) = (h ≡ 0) × AllFree rest

-- Slot `k` is the first that holds a handle.
pub record FirstTaken (fds : List ℕ) (k : ℕ) : Type 0 where
  pub taken : get_or fds k 0 ≢ 0
  pub in_range : k < length fds
  pub before : (j : ℕ) → j < k → get_elem? fds j ≡ some 0

-- What the search says: `it` is the index of the list's first slot.
abbrev pub FreeSearch : ℕ → List ℕ → ℤ → Type 0
FreeSearch it fds (negsuc n) = (n ≡ 0) × AllFree fds
FreeSearch it fds (pos k) = (it ≤ k) × FirstTaken fds (k - it)

FreeSearch-next :
    (it : ℕ) (fds : List ℕ) (r : ℤ) → FreeSearch (it + 1) fds r → FreeSearch it (0 ∷ fds) r
FreeSearch-next it fds (negsuc n) h = (h.0, (refl, h.1))
FreeSearch-next it fds (pos k) (le, first) =
    let e : k - it ≡ suc (k - (it + 1)) = omega arith in
    (
      omega arith,
      rw e (record { taken = first.taken; in_range = omega (arith, first.in_range); before = at }),
    )
  where
    at : (j : ℕ) → j < suc (k - (it + 1)) → get_elem? (0 ∷ fds) j ≡ some 0
    at zero lt = refl
    at (suc j) lt = first.before j (omega arith)

find_free_from-FreeSearch : (it : ℕ) (fds : List ℕ) → FreeSearch it fds (find_free_from it fds)
unfolding find_free_from
find_free_from-FreeSearch it [] = (refl, tt)
find_free_from-FreeSearch it (h ∷ rest) = elim (Bool-cases (h == 0)) [
  | inl free ↦
      let e : h ≡ 0 = ground arith in
      rw e (
        FreeSearch-next it rest (find_free_from (it + 1) rest)
          (find_free_from-FreeSearch (it + 1) rest))
  | inr held ↦ rw held (
    omega arith,
    let e : it - it ≡ 0 = omega arith in
        rw e (record {
          taken = ground arith;
          in_range = omega arith;
          before = λ j lt. absurd (omega arith);
        }),
  )
]

-- `fd_real_find_free` returns the first slot that holds a handle, or -1 if no slot holds one.
pub fd_real_find_free_lem : (fds : List ℕ) → FreeSearch 0 fds (fd_real_find_free fds)
unfolding fd_real_find_free
fd_real_find_free_lem fds = find_free_from-FreeSearch 0 fds

pub AllFree-find_free : (fds : List ℕ) → AllFree fds → fd_real_find_free fds ≡ negsuc 0
unfolding fd_real_find_free find_free_from
AllFree-find_free fds h = go 0 fds h
  where
    go : (it : ℕ) (l : List ℕ) → AllFree l → find_free_from it l ≡ negsuc 0
    go it [] h = refl
    go it (x ∷ l) (e, h) = rw e (go (it + 1) l h)

pub AllFree-get_or : (fds : List ℕ) (i : ℕ) → AllFree fds → get_or fds i 0 ≡ 0
AllFree-get_or [] i h = refl
AllFree-get_or (x ∷ fds) zero h = h.0
AllFree-get_or (x ∷ fds) (suc i) h = AllFree-get_or fds i h.1

-- No slot holds the handle.
abbrev pub Absent : ℕ → List ℕ → Type 0
Absent handle fds = (k : ℕ) → get_elem? fds k ≢ some handle

for_handle_from-ge :
    (handle it k : ℕ) (fds : List ℕ)
    → get_elem? fds k ≡ some handle
    → it ≤ for_handle_from handle it fds
unfolding for_handle_from
for_handle_from-ge handle it k [] e = cc e
for_handle_from-ge handle it zero (x ∷ fds) e = ground arith
for_handle_from-ge handle it (suc k) (x ∷ fds) e =
    ground (arith, for_handle_from-ge handle (it + 1) k fds e)

for_handle_from-Absent :
    (handle it : ℕ) (fds : List ℕ) → Absent handle fds → for_handle_from handle it fds ≡ 0
unfolding for_handle_from
for_handle_from-Absent handle it [] h = refl
for_handle_from-Absent handle it (x ∷ fds) h =
    ground (arith, h 0, for_handle_from-Absent handle (it + 1) fds (λ k. h (suc k)))

for_handle_from-zero :
    (handle it x : ℕ) (fds : List ℕ)
    → (x == handle) ≡ false
    → 0 < it
    → for_handle_from handle it fds ≡ 0
    → Absent handle (x ∷ fds)
for_handle_from-zero handle it x fds other lt e zero held = ground arith
for_handle_from-zero handle it x fds other lt e (suc k) held =
    omega (arith, for_handle_from-ge handle it k fds held)

-- `fd_real_for_handle` returns 0 exactly if slot 0 holds the handle or no slot does.
pub fd_real_for_handle_zero :
    (handle : ℕ) (fds : List ℕ)
    → (fd_real_for_handle handle fds ≡ 0) ↔ ((get_elem? fds 0 ≡ some handle) ⊎ Absent handle fds)
unfolding fd_real_for_handle for_handle_from
fd_real_for_handle_zero handle [] = (λ e. inr (λ k h. cc h), λ h. refl)
fd_real_for_handle_zero handle (x ∷ fds) = (zero_only, of_zero)
  where
    zero_only :
        for_handle_from handle 0 (x ∷ fds) ≡ 0 → (some x ≡ some handle) ⊎ Absent handle (x ∷ fds)
    zero_only e = elim (Bool-cases (x == handle)) [
      | inl same ↦ inl (ground arith)
      | inr other ↦ inr (for_handle_from-zero handle 1 x fds other (omega arith) (ground arith))
    ]

    of_zero :
        (some x ≡ some handle) ⊎ Absent handle (x ∷ fds) → for_handle_from handle 0 (x ∷ fds) ≡ 0
    of_zero (inl e) = ground arith
    of_zero (inr h) = for_handle_from-Absent handle 0 (x ∷ fds) h

find_free_from-FirstTaken :
    (it k : ℕ) (fds : List ℕ) → FirstTaken fds k → find_free_from it fds ≡ pos (it + k)
unfolding find_free_from
find_free_from-FirstTaken it k [] f = absurd (omega (arith, f.in_range))
find_free_from-FirstTaken it zero (x ∷ fds) f = ground (arith, f.taken)
find_free_from-FirstTaken it (suc k) (x ∷ fds) f =
    let free : x ≡ 0 = ground (arith, f.before 0) in
    rw free (
      find_free_from-FirstTaken (it + 1) k fds (record {
        taken = f.taken;
        in_range = omega (arith, f.in_range);
        before = λ j lt. f.before (suc j) (omega arith);
      })
      ∙ ap pos (omega arith))

pub find_free-FirstTaken : (k : ℕ) (fds : List ℕ) → FirstTaken fds k → fd_real_find_free fds ≡ pos k
unfolding fd_real_find_free
find_free-FirstTaken k fds f = find_free_from-FirstTaken 0 k fds f ∙ ap pos (omega arith)
