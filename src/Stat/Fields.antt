-- ===== src/Stat/Fields.antt =====
-- What `fd_efi_stat`, and through it `fd_fstat`, writes into the caller's `struct stat`.
use uefilinux.Base.{
  ℕ, ◌≡◌, ◌⊎◌, inl, inr, refl, ◌∙◌, true, false, Bool-cases, ◌==◌, ℤ, pos, neg, arith,
}
use uefilinux.Efi.{Firmware, FileInfo}
use uefilinux.Errno.{efi_status_to_errno}
use uefilinux.Machine.{Machine, Stat, update}
use uefilinux.Machine.After.{Returns}
use uefilinux.Time.{time_efi_time_to_time_t}
use uefilinux.Stat.{stat_head, stat_tail, change_stat, fd_efi_stat}

-- What the firmware tells of a file, as the caller finds it.
pub record Describes (volume : ℕ) (info : FileInfo) (st : Stat) : Type 0 where
  pub dev : st.st_dev ≡ volume
  pub size : st.st_size ≡ info.file_size
  pub blocks : st.st_blocks ≡ info.physical_size
  pub accessed : st.st_atim ≡ (time_efi_time_to_time_t info.last_access_time, 0)
  pub modified : st.st_mtim ≡ (time_efi_time_to_time_t info.modification_time, 0)
  pub created : st.st_ctim ≡ (time_efi_time_to_time_t info.create_time, 0)
  pub links : st.st_nlink ≡ 1
  pub mode : st.st_mode ≡ 0o666

-- The firmware does not know the file: what the caller finds but for the mode and the volume is what
-- was there.
pub record Untold (volume : ℕ) (old st : Stat) : Type 0 where
  pub dev : st.st_dev ≡ volume
  pub size : st.st_size ≡ old.st_size
  pub blocks : st.st_blocks ≡ old.st_blocks
  pub links : st.st_nlink ≡ 1
  pub mode : st.st_mode ≡ 0o666

update-same : {A : Type 0} (f : ℕ → A) (p : ℕ) (x : A) → update f p x p ≡ x
unfolding update
update-same f p x = ground arith

update-other : {A : Type 0} (f : ℕ → A) (p q : ℕ) (x : A) → (q == p) ≡ false → update f p x q ≡ f q
unfolding update
update-other f p q x other = rw other

module _ {W : Type 0} (fw : Firmware W) where
  -- What a query of the file `handle` returns and leaves behind: the caller's structure at `buf`, every
  -- other structure, and the slots.
  pub record Told (handle buf : ℕ) (s : Machine W) (r : ℤ) (t : Machine W) : Type 0 where
    pub answer :
        ((fw.is_error (fw.get_info handle s.world).0.0 ≡ false)
          × (r ≡ pos 0)
          × Describes s.volume (fw.get_info handle s.world).0.1 (t.mem.stats buf))
        ⊎ ((fw.is_error (fw.get_info handle s.world).0.0 ≡ true)
            × (r ≡ neg (efi_status_to_errno fw (fw.get_info handle s.world).0.0))
            × Untold s.volume (s.mem.stats buf) (t.mem.stats buf))
    pub others : (p : ℕ) → (p == buf) ≡ false → t.mem.stats p ≡ s.mem.stats p
    pub bytes : t.mem.bytes ≡ s.mem.bytes
    pub fds : t.fds ≡ s.fds
    pub world : t.world ≡ (fw.get_info handle s.world).1

  pub fd_efi_stat_lem :
      (handle buf : ℕ) (s : Machine W)
      → Returns (λ r t. Told handle buf s r t) (fd_efi_stat fw handle buf s)
  unfolding fd_efi_stat change_stat stat_head stat_tail
  fd_efi_stat_lem handle buf s = elim (Bool-cases (fw.is_error (fw.get_info handle s.world).0.0)) [
    | inl bad ↦ rw bad (record {
      answer = inr (
        bad,
        refl,
        rw (update-same _ _ _)
            record { dev = refl; size = refl; blocks = refl; links = refl; mode = refl },
      );
      others = λ p other. update-other _ _ _ _ other;
      bytes = refl;
      fds = refl;
      world = refl;
    })
    | inr good ↦ rw good (record {
      answer = inl (
        good,
        refl,
        rw (update-same _ _ _, update-same _ _ _)
            record {
              dev = refl;
              size = refl;
              blocks = refl;
              accessed = refl;
              modified = refl;
              created = refl;
              links = refl;
              mode = refl;
            },
      );
      others = λ p other. update-other _ _ _ _ other ∙ update-other _ _ _ _ other;
      bytes = refl;
      fds = refl;
      world = refl;
    })
  ]
