-- ===== src/Boot/Start.antt =====
-- The descriptor table at the start of the program, and what it means for the calls that follow.
use uefilinux.Base.{
  ℕ, zero, suc, ◌+◌, ◌≡◌, refl, ap, ◌∙◌, sym, subst, Option, none, some, List, [], ◌∷◌, ◌++◌, set,
  set-append, length, length-append, replicate, neg, arith,
}
use mathlib.Core.List.{append_assoc}
use uefilinux.Efi.{Firmware, loaded_image_protocol, simple_file_system_protocol}
use uefilinux.Errno.{emfile}
use uefilinux.Machine.{Machine, Run, ok}
use uefilinux.Machine.After.{and_then-eq-ok, After}
use uefilinux.Machine.Keeps.{Keeps, SameTable, Keeps-pure, Keeps-efi, Keeps-undefined, Keeps->>=}
use uefilinux.Machine.Slots.{store_fd_lem}
use uefilinux.Fd.{max_fds}
use uefilinux.Fd.Search.{AllFree}
use uefilinux.Fd.Table.{IsTable, get_elem?-lt}
use uefilinux.File.{fd_open}
use uefilinux.File.Open.{open-AllFree}
use uefilinux.Process.{print}
use uefilinux.Syscall.Table.{IsEmpty, Reach, Reach-IsEmpty}
use uefilinux.Boot.{written, clear_fds, set_image, set_volume, get_volume, prepare}

-- The loop of `efi_main` from a slot on: that slot and all after it become free.
pub clear_fds_lem :
    {W : Type 0} (left : ℕ) (front back : List ℕ) (s : Machine W)
    → s.fds ≡ front ++ back
    → length back ≡ left
    → clear_fds left (length front) s ≡ ok tt (record s { fds = front ++ replicate left 0 })
unfolding clear_fds
clear_fds_lem {W} zero front [] s e n =
    ap {B = Run W (Unit {0})} (λ l. ok tt (record s { fds = l })) e
clear_fds_lem zero front (x ∷ back) s e n = absurd (omega arith)
clear_fds_lem (suc left) front [] s e n = absurd (omega arith)
clear_fds_lem {W} (suc left) front (x ∷ back) s e n =
    let (old, held) =
      get_elem?-lt s.fds (length front)
        (omega (arith, ap {B = ℕ} length e, length-append front (x ∷ back))) in
    let here : length front + 0 ≡ length front = omega arith in
    let stored : set (front ++ (x ∷ back)) (length front) 0 ≡ front ++ (0 ∷ back) =
      rw here at (set-append front (x ∷ back) 0 0) in
    let next : length (front ++ (0 ∷ [])) ≡ length front + 1 = length-append front (0 ∷ []) in
    rw (store_fd_lem s (length front) old 0 held, ← next)
      (clear_fds_lem left (front ++ (0 ∷ [])) back (record s { fds = set s.fds (length front) 0 })
          (ap (λ l. set l (length front) 0) e ∙ stored ∙ sym (append_assoc front (0 ∷ []) back))
          (omega arith)
        ∙ ap {B = Run W (Unit {0})} (λ l. ok tt (record s { fds = l }))
            (append_assoc front (0 ∷ []) (replicate left 0)))

pub AllFree-replicate : (n : ℕ) → AllFree (replicate n 0)
AllFree-replicate zero = tt
AllFree-replicate (suc n) = (refl, AllFree-replicate n)

Keeps-written : {W : Type 0} (o : Option ℕ) → Keeps (written {W = W} o)
Keeps-written none = Keeps-undefined
Keeps-written (some p) = Keeps-pure p

Keeps-get_volume : {W : Type 0} (fw : Firmware W) (image : ℕ) → Keeps (get_volume fw image)
unfolding get_volume
Keeps-get_volume fw image =
    Keeps->>= _ _ (Keeps-efi (fw.handle_protocol image loaded_image_protocol)) λ loaded.
      Keeps->>= _ _ (Keeps-written loaded) λ loaded_image.
        Keeps->>= _ _
          (Keeps-efi
            (fw.handle_protocol (fw.device_handle loaded_image) simple_file_system_protocol))
          λ system. Keeps->>= _ _ (Keeps-written system) λ io_volume.
            Keeps->>= _ _ (Keeps-efi (fw.open_volume io_volume)) λ volume. Keeps-written volume

-- After the preparations that return, every slot is free, whatever the state was before.
pub prepare-IsEmpty :
    {W : Type 0} (fw : Firmware W) (image_handle : ℕ) (s t : Machine W)
    → IsTable s.fds
    → prepare fw image_handle s ≡ ok tt t
    → IsEmpty t
unfolding prepare set_image set_volume print
prepare-IsEmpty {W} fw image_handle s t h e =
    let (volume, u, got, rest) = and_then-eq-ok (get_volume fw image_handle started) _ e in
    let kept : SameTable started u =
      subst (After (SameTable started)) got ((Keeps-get_volume fw image_handle).after started) in
    let v : Machine W = record u { volume = volume } in
    let cleared : clear_fds max_fds 0 v ≡ ok tt (record v { fds = replicate max_fds 0 }) =
      clear_fds_lem max_fds [] u.fds v refl (ap length kept.fds ∙ h) in
    let final = rw cleared at rest in
    subst (After IsEmpty) final (record { table = refl; free = AllFree-replicate max_fds })
  where
    started : Machine W
    started = record s { world = fw.initialize_lib image_handle s.world; image = image_handle }

-- Once the preparations of `efi_main` from a table of 16 slots have returned, and after any
-- sequence of system calls, memory writes and firmware changes, `fd_open` returns EMFILE and
-- changes nothing.
pub never_opens :
    {W : Type 0} (fw : Firmware W) (image_handle pathname flags : ℕ) (s t u : Machine W)
    → IsTable s.fds
    → prepare fw image_handle s ≡ ok tt t
    → Reach fw t u
    → fd_open fw pathname flags u ≡ ok (neg emfile) u
never_opens fw image_handle pathname flags s t u h e r =
    open-AllFree fw u pathname flags
      (Reach-IsEmpty fw (prepare-IsEmpty fw image_handle s t h e) r).free
