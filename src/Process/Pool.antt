-- ===== src/Process/Pool.antt =====
-- `mem_mmap` and `mem_munmap` against the firmware's pool of blocks.
use uefilinux.Base.{
  ℕ, ◌≡◌, refl, sym, ap, ◌∙◌, ◌⊎◌, inl, inr, true, false, Bool-cases, not, ◌&&◌, ◌==◌, is_neg,
  to_u32, to_u64, ℤ, pos, neg,
}
use uefilinux.Efi.{Firmware}
use uefilinux.Errno.{enotsup, efi_status_to_errno}
use uefilinux.Machine.{Machine}
use uefilinux.Machine.After.{Returns}
use uefilinux.Fd.{result_of}
use uefilinux.Process.{mem_mmap, mem_munmap}
use uefilinux.Process.Bags.{Bag, add, add-cancel}

-- A firmware whose pool has the blocks that are allocated, by their addresses, in no order: what UEFI says
-- of AllocatePool and FreePool.
pub record HasPool {W : Type 0} (fw : Firmware W) : Type 0 where
  pub blocks : W → Bag
  pub allocated :
      (size : ℕ) (w : W)
      → fw.is_error (fw.allocate_pool size w).0.0 ≡ false
      → blocks (fw.allocate_pool size w).1 ≡ add (fw.allocate_pool size w).0.1 (blocks w)
  pub not_allocated :
      (size : ℕ) (w : W)
      → fw.is_error (fw.allocate_pool size w).0.0 ≡ true
      → blocks (fw.allocate_pool size w).1 ≡ blocks w
  pub freed :
      (p : ℕ) (w : W)
      → fw.is_error (fw.free_pool p w).0 ≡ false
      → blocks w ≡ add p (blocks (fw.free_pool p w).1)
  pub not_freed :
      (p : ℕ) (w : W)
      → fw.is_error (fw.free_pool p w).0 ≡ true
      → blocks (fw.free_pool p w).1 ≡ blocks w

module _ {W : Type 0} (fw : Firmware W) (pool : HasPool fw) where
  -- What a call makes of the machine: only the firmware's state is new, with these blocks in its pool.
  abbrev pub Pooled : Bag → Machine W → Machine W → Type 0
  Pooled b s t = (t ≡ record s { world = t.world }) × (pool.blocks t.world ≡ b)

  -- The block at `p` is given back, or the firmware's error returned and the pool as it was.
  abbrev pub Unmapped : ℕ → Bag → Machine W → ℤ → Machine W → Type 0
  Unmapped p b s r u =
      ((r ≡ pos 0) × Pooled b s u)
      ⊎ ((status : ℕ) × (fw.is_error status ≡ true)
          × (r ≡ neg (efi_status_to_errno fw status))
          × Pooled (add p b) s u)

  munmap_lem :
      (p : ℕ) (b : Bag) (s t : Machine W)
      → Pooled (add p b) s t
      → Returns (Unmapped p b s) (mem_munmap fw p t)
  unfolding mem_munmap result_of
  munmap_lem p b s t (same, held) = elim (Bool-cases (fw.is_error (fw.free_pool p t.world).0)) [
    | inl bad ↦
        rw bad (
          inr ((fw.free_pool p t.world).0, bad, refl, (again, pool.not_freed p t.world bad ∙ held)))
    | inr good ↦
        rw good (inl (refl, (again, add-cancel p _ _ (sym (pool.freed p t.world good) ∙ held))))
  ]
    where
      again :
          record t { world = (fw.free_pool p t.world).1 }
          ≡ record s { world = (fw.free_pool p t.world).1 }
      again = ap (λ (m : Machine W). record m { world = (fw.free_pool p t.world).1 }) same

  -- Where the firmware's pool has the blocks that are allocated, in no order: `mem_mmap` refuses a
  -- positive descriptor with the word of -ENOTSUP and changes nothing, or returns the word of an
  -- error of the firmware with the pool as it was, or adds a block to the pool and returns its
  -- address; and `mem_munmap` of that address then returns 0 and the pool is as at first, or an
  -- error of the firmware with the block still in the pool. No call changes anything but the
  -- firmware's state.
  pub mmap_munmap :
      (length : ℕ) (fd : ℤ) (s : Machine W)
      → Returns
          (λ p t.
            (Pooled (add p (pool.blocks s.world)) s t
              × Returns (Unmapped p (pool.blocks s.world) s) (mem_munmap fw p t))
            ⊎ ((status : ℕ) × (fw.is_error status ≡ true)
                × (p ≡ to_u64 (neg (efi_status_to_errno fw status)))
                × Pooled (pool.blocks s.world) s t)
            ⊎ (((not (is_neg fd) && not (to_u32 fd == 0)) ≡ true)
                × (p ≡ to_u64 (neg enotsup))
                × (t ≡ s)))
          (mem_mmap fw length fd s)
  unfolding mem_mmap
  mmap_munmap length fd s = elim (Bool-cases (not (is_neg fd) && not (to_u32 fd == 0))) [
    | inl file ↦ rw file (inr (inr (refl, refl, refl)))
    | inr anonymous ↦
        let ((status, p), w) = fw.allocate_pool length s.world in
        elim (Bool-cases (fw.is_error (fw.allocate_pool length s.world).0.0)) [
          | inl bad ↦
              rw (anonymous, bad)
                (inr (inl (status, bad, refl, (refl, pool.not_allocated length s.world bad))))
          | inr good ↦
              let grown : Pooled (add p (pool.blocks s.world)) s (record s { world = w }) =
                (refl, pool.allocated length s.world good) in
              rw (anonymous, good)
                (inl (grown, munmap_lem p (pool.blocks s.world) s (record s { world = w }) grown))
        ]
  ]
