-- ===== src/Machine/Slots.antt =====
-- Reading and writing one slot of the descriptor table.
use uefilinux.Base.{
  ℕ, zero, suc, ◌≤◌, ◌≡◌, refl, none, some, List, [], ◌∷◌, length, get_elem?, set, arith,
}
use uefilinux.Machine.{Machine, ok, fault, load_fd, store_fd}

get_elem?-ge : (xs : List ℕ) (i : ℕ) → length xs ≤ i → get_elem? xs i ≡ none
get_elem?-ge [] i h = refl
get_elem?-ge (x ∷ xs) zero h = absurd (omega arith)
get_elem?-ge (x ∷ xs) (suc i) h = get_elem?-ge xs i (omega arith)

module _ {W : Type 0} (s : Machine W) where
  pub load_fd_lem : (i h : ℕ) → get_elem? s.fds i ≡ some h → load_fd i s ≡ ok h s
  unfolding load_fd
  load_fd_lem i h e = rw (load_fd, e)

  pub store_fd_lem :
      (i h new : ℕ)
      → get_elem? s.fds i ≡ some h
      → store_fd i new s ≡ ok tt (record s { fds = set s.fds i new })
  unfolding store_fd
  store_fd_lem i h new e = rw (store_fd, e)

  pub load_fd_outside : (i : ℕ) → length s.fds ≤ i → load_fd i s ≡ fault
  unfolding load_fd
  load_fd_outside i h = rw (load_fd, get_elem?-ge s.fds i h)

  pub store_fd_outside : (i new : ℕ) → length s.fds ≤ i → store_fd i new s ≡ fault
  unfolding store_fd
  store_fd_outside i new h = rw (store_fd, get_elem?-ge s.fds i h)
