-- ===== src/Examples/Desks.antt =====
-- A firmware that keeps account of the handles that it closed, and a machine over it.
use uefilinux.Base.{
  ℕ, ◌+◌, ◌≡◌, ◌≢◌, refl, Bool, true, false, not, ◌&&◌, some, [], ◌∷◌, zero, suc, get_elem?, ltb,
  replicate, arith,
}
use uefilinux.Efi.{Firmware}
use uefilinux.Machine.{Machine, update}
use uefilinux.Machine.After.{After}
use uefilinux.Handles.{Steps, Handles, IsOwned}
use uefilinux.Handles.Every.{syscall-IsOwned}
use uefilinux.Syscall.{arguments, syscall_emu_x86_64}
use uefilinux.Examples.Machines.{error, notes, date_2024, memory}

-- Which handles were closed, and whether every use was of another one.
record Desk : Type 0 where
  closed : ℕ → Bool
  proper : Bool

abbrev use_handle : ℕ → Desk → Desk
use_handle h w = record w { proper = w.proper && not (w.closed h) }

-- A file is opened under handle 7, or not at all.
abbrev desk : Firmware Desk
desk = record {
  is_error = λ s. ltb 0x7fff_ffff_ffff_ffff s;
  success = 0;
  end_of_file = error + 31;
  aborted = error + 21;
  write_protected = error + 8;
  access_denied = error + 15;
  volume_full = error + 11;
  not_found = error + 14;
  invalid_parameter = error + 2;
  file_directory = 16;
  initialize_lib = λ h w. w;
  handle_protocol = λ h g w. (some 3, w);
  device_handle = λ h. 4;
  open_volume = λ h w. (some 5, w);
  open_file = λ v name mode attributes w. (
    (0, 7),
    record w { closed = update w.closed 7 false; proper = w.proper && not (w.closed v) },
  );
  close = λ h w.
      (0, record w { closed = update w.closed h true; proper = w.proper && not (w.closed h) });
  flush = λ h w. (0, use_handle h w);
  set_position = λ h p w. (0, use_handle h w);
  get_position = λ h w. ((0, 10), use_handle h w);
  read = λ h count w. ((0, 0, []), use_handle h w);
  read_directory = λ h w. ((0, some notes), use_handle h w);
  write = λ h bytes w. ((0, 1), use_handle h w);
  get_info = λ h w. ((0, notes), use_handle h w);
  set_info = λ h info w. (0, use_handle h w);
  output_string = λ text w. (0, w);
  wait_for_key = λ w. w;
  read_key_stroke = λ w. (some b'a', w);
  stall = λ n w. (0, w);
  get_time = λ w. (some date_2024, w);
  exit_image = λ image status w. w;
  reset_system = λ kind status size text w. w;
  allocate_pool = λ size w. ((0, 4096), w);
  free_pool = λ p w. (0, w);
}

abbrev open_at_desk : ℕ → Desk → Bool
open_at_desk h w = not (w.closed h)

abbrev proper_at_desk : Desk → Bool
proper_at_desk w = w.proper

desk-idle : (w : Desk) → Steps open_at_desk proper_at_desk w w
desk-idle w = record { still_open = λ h e. e; still_clean = λ e. e }

desk-use :
    (h : ℕ) (w : Desk)
    → open_at_desk h w ≡ true
    → Steps open_at_desk proper_at_desk w (use_handle h w)
desk-use h w e = record { still_open = λ k o. o; still_clean = λ c. rw (c, e) }

desk-opens :
    (v : ℕ) (w : Desk)
    → open_at_desk v w ≡ true
    → Steps open_at_desk proper_at_desk w
        (record w { closed = update w.closed 7 false; proper = w.proper && not (w.closed v) })
unfolding update
desk-opens v w e = record { still_open = λ k o. ground (arith, o); still_clean = λ c. rw (c, e) }

desk-closes :
    (h other : ℕ) (w : Desk)
    → other ≢ h
    → open_at_desk other w ≡ true
    → not (update w.closed h true other) ≡ true
unfolding update
desk-closes h other w ne o = ground arith

abbrev desk_handles : Handles desk
desk_handles = record {
  is_open = open_at_desk;
  clean = proper_at_desk;
  open_steps = λ v name mode attributes w e. desk-opens v w e;
  open_opens = λ v name mode attributes w good. unfold update in refl;
  close_clean = λ h w e c. rw (c, e);
  close_open = λ h other w ne o. desk-closes h other w ne o;
  flush = λ h w e. desk-use h w e;
  set_position = λ h p w e. desk-use h w e;
  get_position = λ h w e. desk-use h w e;
  read = λ h count w e. desk-use h w e;
  read_directory = λ h w e. desk-use h w e;
  write = λ h bytes w e. desk-use h w e;
  get_info = λ h w e. desk-use h w e;
  set_info = λ h info w e. desk-use h w e;
  output_string = λ text w. desk-idle w;
  wait_for_key = λ w. desk-idle w;
  read_key_stroke = λ w. desk-idle w;
  stall = λ n w. desk-idle w;
  get_time = λ w. desk-idle w;
  exit_image = λ image status w. desk-idle w;
  reset_system = λ kind status size text w. desk-idle w;
  allocate_pool = λ size w. desk-idle w;
  free_pool = λ p w. desk-idle w;
}

-- Slots 1 and 2 hold handle 7, slot 3 holds 9, and the volume is 5.
abbrev at_desk : Machine Desk
at_desk = record {
  image = 1;
  volume = 5;
  fds = 0 ∷ 7 ∷ 7 ∷ 9 ∷ replicate 12 0;
  fres = replicate 1024 0;
  mem = memory;
  world = record { closed = λ h. false; proper = true };
}

free_slots : (n i h : ℕ) → get_elem? (replicate n 0) i ≡ some h → h ≢ 5
free_slots zero i h e z = cc e
free_slots (suc n) zero h e z = ground arith
free_slots (suc n) (suc i) h e z = free_slots n i h e z

at_desk-IsOwned : IsOwned desk_handles at_desk
at_desk-IsOwned = record {
  table = refl;
  first_free = refl;
  held = λ i h e ne. (refl, not_five i h e);
  volume_open = refl;
  clean = refl;
}
  where
    not_five : (i h : ℕ) → get_elem? at_desk.fds i ≡ some h → h ≢ 5
    not_five zero h e z = ground arith
    not_five (suc zero) h e z = ground arith
    not_five (suc (suc zero)) h e z = ground arith
    not_five (suc (suc (suc zero))) h e z = ground arith
    not_five (suc (suc (suc (suc i)))) h e z = free_slots 12 i h e z

-- Number 3 is the close of descriptor 5, of slot 1.
syscall-IsOwned_example :
    After (IsOwned desk_handles) (syscall_emu_x86_64 desk 3 (arguments 5 0 0 0 0 0) at_desk)
syscall-IsOwned_example =
    syscall-IsOwned desk_handles 3 (arguments 5 0 0 0 0 0) at_desk at_desk-IsOwned
