-- ===== src/Fd/Seek/Lands.antt =====
-- `fd_lseek` against a file that has a size and a position.
use uefilinux.Base.{
  ℕ, ◌+◌, ◌%◌, ◌^◌, ◌≡◌, refl, ap, ◌∙◌, ◌⊎◌, inl, inr, true, false, Bool-cases, if◌then◌else◌, ◌==◌,
  ℤ, pos, neg, to_long,
}
use uefilinux.Efi.{Firmware}
use uefilinux.Errno.{efi_status_to_errno}
use uefilinux.Machine.{Machine}
use uefilinux.Machine.After.{Returns, Returns-mono}
use uefilinux.Fd.{fd_lseek, seek_set, seek_cur, seek_end, seek_result}
use uefilinux.Fd.Table.{
  IsTable, IsOpen, IsClosed, closed_error, IsOpen-or_IsClosed, find_fd-IsOpen, find_fd-IsClosed,
}

-- Where a position that is set comes to be: 2 ^ 64 - 1 stands for the end of the file.
abbrev pub landing : ℕ → ℕ → ℕ
landing p size = if p == 0xffff_ffff_ffff_ffff then size else p

-- A firmware whose open files have a position and a size: what UEFI says of SetPosition and GetPosition.
pub record HasPositions {W : Type 0} (fw : Firmware W) : Type 0 where
  pub at : ℕ → W → ℕ
  pub size : ℕ → W → ℕ
  pub set_done :
      (handle p : ℕ) (w : W)
      → fw.is_error (fw.set_position handle p w).0 ≡ false
      → at handle (fw.set_position handle p w).1 ≡ landing p (size handle w)
  pub set_kept :
      (handle p : ℕ) (w : W)
      → fw.is_error (fw.set_position handle p w).0 ≡ true
      → at handle (fw.set_position handle p w).1 ≡ at handle w
  pub set_size : (handle p : ℕ) (w : W) → size handle (fw.set_position handle p w).1 ≡ size handle w
  pub get_at :
      (handle : ℕ) (w : W)
      → fw.is_error (fw.get_position handle w).0.0 ≡ false
      → (fw.get_position handle w).0.1 ≡ at handle w
  pub get_kept : (handle : ℕ) (w : W) → at handle (fw.get_position handle w).1 ≡ at handle w
  pub get_size : (handle : ℕ) (w : W) → size handle (fw.get_position handle w).1 ≡ size handle w

-- The three values of `whence`.
pub data Whence : Type 0 where
  from_start : Whence
  from_here : Whence
  from_end : Whence

abbrev pub whence_code : Whence → ℤ
whence_code from_start = pos 0
whence_code from_here = pos 1
whence_code from_end = pos 2

module _ {W : Type 0} (fw : Firmware W) (files : HasPositions fw) (handle : ℕ) where
  -- Where a seek is to go to.
  abbrev pub target_of : Whence → ℕ → W → ℕ
  target_of from_start offset w = offset % 2 ^ 64
  target_of from_here offset w = (files.at handle w + offset) % 2 ^ 64
  target_of from_end offset w = (files.size handle w + offset) % 2 ^ 64

  -- The result is an error of the firmware, and the position is `kept`.
  pub record Failed (kept : ℕ) (r : ℤ) (w' : W) : Type 0 where
    pub status : ℕ
    pub bad : fw.is_error status ≡ true
    pub result : r ≡ neg (efi_status_to_errno fw status)
    pub still : files.at handle w' ≡ kept

  -- The position is the target, or what it was and the result an error of the firmware.
  pub Ends : ℕ → ℕ → ℕ → ℤ → W → Type 0
  Ends target size kept r w' =
      ((r ≡ to_long target) × (files.at handle w' ≡ landing target size)) ⊎ Failed kept r w'

  set_position_lem :
      (target size kept : ℕ) (w : W)
      → files.size handle w ≡ size
      → files.at handle w ≡ kept
      → Ends target size kept
          (seek_result fw (fw.set_position handle target w).0 target)
          (fw.set_position handle target w).1
  unfolding Ends seek_result
  set_position_lem target size kept w e h =
      elim (Bool-cases (fw.is_error (fw.set_position handle target w).0)) [
        | inl bad ↦ inr record {
          status = (fw.set_position handle target w).0;
          bad = bad;
          result = rw bad;
          still = files.set_kept handle target w bad ∙ h;
        }
        | inr good ↦ inl (rw good, files.set_done handle target w good ∙ ap (landing target) e)
      ]

  module _ (s : Machine W) where
    -- The result and the final state of a seek to `target` from `kept`: only the firmware's state is new.
    abbrev pub Sought : ℕ → ℕ → ℕ → ℤ → Machine W → Type 0
    Sought target size kept r t =
        (t ≡ record s { world = t.world }) × Ends target size kept r t.world

    seek_cur_lem :
        (offset size kept : ℕ)
        → files.size handle s.world ≡ size
        → files.at handle s.world ≡ kept
        → Returns (Sought ((kept + offset) % 2 ^ 64) size kept) (seek_cur fw handle offset s)
    unfolding seek_cur
    seek_cur_lem offset size kept e h =
        elim (Bool-cases (fw.is_error (fw.get_position handle s.world).0.0)) [
          | inl bad ↦ rw bad (
            refl,
            unfold Ends in
                inr record {
                  status = (fw.get_position handle s.world).0.0;
                  bad = bad;
                  result = refl;
                  still = files.get_kept handle s.world ∙ h;
                },
          )
          | inr good ↦
              let here : (fw.get_position handle s.world).0.1 ≡ kept =
                files.get_at handle s.world good ∙ h in
              rw (good, here)
                (
                  refl,
                  set_position_lem ((kept + offset) % 2 ^ 64) size kept
                      (fw.get_position handle s.world).1 (files.get_size handle s.world ∙ e)
                      (files.get_kept handle s.world ∙ h),
                )
        ]

  -- A failure keeps the position, but SEEK_END may have gone to the end before it.
  abbrev pub Kept : Whence → Machine W → ℕ → Type 0
  Kept from_start s kept = kept ≡ files.at handle s.world
  Kept from_here s kept = kept ≡ files.at handle s.world
  Kept from_end s kept = (kept ≡ files.at handle s.world) ⊎ (kept ≡ files.size handle s.world)

  pub SoughtFrom : Whence → ℕ → Machine W → ℤ → Machine W → Type 0
  SoughtFrom whence offset s r t =
      (kept : ℕ) × Kept whence s kept
      × Sought s (target_of whence offset s.world) (files.size handle s.world) kept r t

  seek_end_lem :
      (offset : ℕ) (s : Machine W)
      → Returns (SoughtFrom from_end offset s) (seek_end fw handle offset s)
  unfolding seek_end SoughtFrom
  seek_end_lem offset s =
      let (status, w) = fw.set_position handle 0xffff_ffff_ffff_ffff s.world in
      elim (Bool-cases (fw.is_error status)) [
        | inl bad ↦ rw bad (
          files.at handle s.world,
          inl refl,
          (
            refl,
            unfold Ends in
                inr record {
                  status = status;
                  bad = bad;
                  result = refl;
                  still = files.set_kept handle 0xffff_ffff_ffff_ffff s.world bad;
                },
          ),
        )
        | inr good ↦ rw good (
            Returns-mono _ _ (seek_cur fw handle offset (record s { world = w }))
              (seek_cur_lem (record s { world = w }) offset (files.size handle s.world)
                (files.size handle s.world) (files.set_size handle 0xffff_ffff_ffff_ffff s.world)
                (files.set_done handle 0xffff_ffff_ffff_ffff s.world good))
              (λ r t sought. (files.size handle s.world, inr refl, sought)))
      ]

  seek_lem :
      (whence : Whence) (offset : ℕ) (fd : ℤ) (i : ℕ) (s : Machine W)
      → IsOpen s.fds fd i handle
      → Returns (SoughtFrom whence offset s) (fd_lseek fw fd offset (whence_code whence) s)
  unfolding fd_lseek SoughtFrom seek_set
  seek_lem from_start offset fd i s o = rw (find_fd-IsOpen s i handle o) (
    files.at handle s.world,
    refl,
    (
      refl,
      set_position_lem (offset % 2 ^ 64) (files.size handle s.world) (files.at handle s.world)
          s.world refl refl,
    ),
  )
  seek_lem from_here offset fd i s o = rw (find_fd-IsOpen s i handle o) (
      Returns-mono _ _ (seek_cur fw handle offset s)
        (seek_cur_lem s offset (files.size handle s.world) (files.at handle s.world) refl refl)
        (λ r t sought. (files.at handle s.world, refl, sought)))
  seek_lem from_end offset fd i s o = rw (find_fd-IsOpen s i handle o) (seek_end_lem offset s)

module _ {W : Type 0} (fw : Firmware W) where
  -- Where the firmware's files have a position and a size: on a table of 16 slots, `fd_lseek` with
  -- SEEK_SET, SEEK_CUR or SEEK_END returns. For an open descriptor either the result is the target
  -- as a signed word, that is the offset from 0, the position or the size, modulo 2 ^ 64, and the
  -- position is the target, but the size where the target is 2 ^ 64 - 1; or the result is an error
  -- of the firmware and the position is as before or, for SEEK_END, the size; and nothing else
  -- changes. For any other descriptor it is the descriptor's error, and nothing changes.
  pub lseek_refines :
      (files : HasPositions fw) (whence : Whence) (offset : ℕ) (fd : ℤ) (s : Machine W)
      → IsTable s.fds
      → Returns
          (λ r t.
            ((i : ℕ) × (handle : ℕ) × IsOpen s.fds fd i handle
              × SoughtFrom fw files handle whence offset s r t)
            ⊎ (IsClosed s.fds fd × (r ≡ closed_error fd) × (t ≡ s)))
          (fd_lseek fw fd offset (whence_code whence) s)
  unfolding fd_lseek
  lseek_refines files whence offset fd s table = elim (IsOpen-or_IsClosed s.fds fd table) [
    | inl (i, handle, o) ↦
        Returns-mono _ _ (fd_lseek fw fd offset (whence_code whence) s)
          (seek_lem fw files handle whence offset fd i s o)
          (λ r t sought. inl (i, handle, o, sought))
    | inr c ↦ rw (find_fd-IsClosed s fd table c) (inr (c, refl, refl))
  ]
