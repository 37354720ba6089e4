-- ===== src/Examples/Pools.antt =====
-- A firmware that allocates blocks of a page each, and takes back the last one.
use uefilinux.Base.{
  ℕ, zero, suc, ◌+◌, ◌*◌, ◌≡◌, ◌⊎◌, refl, ap, sym, true, false, not, ◌&&◌, Bool-cases, inl, inr,
  List, [], ◌∷◌, ◌==◌, ==_iff, if◌then◌else◌, is_neg, negsuc, neg, to_u32, to_u64, arith,
}
use uefilinux.Efi.{Firmware}
use uefilinux.Errno.{enotsup, efi_status_to_errno}
use uefilinux.Machine.After.{Returns}
use uefilinux.Process.{mem_mmap, mem_munmap}
use uefilinux.Process.Bags.{bag, add}
use uefilinux.Process.Pool.{HasPool, Pooled, Unmapped, mmap_munmap}
use uefilinux.Examples.Machines.{error, firmware, shared}

abbrev pages : ℕ → List ℕ
pages zero = []
pages (suc n) = (4096 * suc n) ∷ pages n

abbrev give_back : ℕ → ℕ → ℕ × ℕ
give_back p zero = (error + 2, zero)
give_back p (suc n) = if p == 4096 * suc n then (0, n) else (error + 2, suc n)

-- The state is the number of pages that are allocated.
abbrev pager : Firmware ℕ
pager = record firmware {
  allocate_pool = λ size n. ((0, 4096 * suc n), suc n);
  free_pool = λ p n. give_back p n;
}

pager_freed :
    (p n : ℕ)
    → pager.is_error (give_back p n).0 ≡ false
    → bag (pages n) ≡ add p (bag (pages (give_back p n).1))
unfolding add
pager_freed p zero e = ground arith
pager_freed p (suc n) e = elim (Bool-cases (p == 4096 * suc n)) [
  | inl last ↦
      let same : p ≡ 4096 * suc n = (==_iff _ _).0 last in
      rw last (ap (λ (q : ℕ). bag (q ∷ pages n)) (sym same))
  | inr other ↦ absurd (ground arith)
]

pager_not_freed :
    (p n : ℕ)
    → pager.is_error (give_back p n).0 ≡ true
    → bag (pages (give_back p n).1) ≡ bag (pages n)
pager_not_freed p zero e = refl
pager_not_freed p (suc n) e = elim (Bool-cases (p == 4096 * suc n)) [
  | inl last ↦ absurd (ground arith)
  | inr other ↦ rw other refl
]

pager_allocated : (n : ℕ) → bag (pages (suc n)) ≡ add (4096 * suc n) (bag (pages n))
unfolding add
pager_allocated n = refl

abbrev pager-HasPool : HasPool pager
pager-HasPool = record {
  blocks = λ n. bag (pages n);
  allocated = λ size n good. pager_allocated n;
  not_allocated = λ size n bad. absurd (ground arith);
  freed = λ p n good. pager_freed p n good;
  not_freed = λ p n bad. pager_not_freed p n bad;
}

mmap_munmap_example :
    Returns
      (λ p t.
        (Pooled pager pager-HasPool (add p (bag [])) shared t
          × Returns (Unmapped pager pager-HasPool p (bag []) shared) (mem_munmap pager p t))
        ⊎ ((status : ℕ) × (pager.is_error status ≡ true)
            × (p ≡ to_u64 (neg (efi_status_to_errno pager status)))
            × Pooled pager pager-HasPool (bag []) shared t)
        ⊎ (((not (is_neg (negsuc 0)) && not (to_u32 (negsuc 0) == 0)) ≡ true)
            × (p ≡ to_u64 (neg enotsup))
            × (t ≡ shared)))
      (mem_mmap pager 100 (negsuc 0) shared)
mmap_munmap_example = mmap_munmap pager pager-HasPool 100 (negsuc 0) shared
