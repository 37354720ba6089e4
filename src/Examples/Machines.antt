-- ===== src/Examples/Machines.antt =====
-- A firmware whose state is the position of its one file of 100 bytes, and machines over it.
use uefilinux.Base.{
  ℕ, ◌+◌, ◌≡◌, refl, false, some, List, [], ◌∷◌, ltb, ◌==◌, if◌then◌else◌, replicate, arith,
}
use uefilinux.Efi.{Firmware, EfiTime, FileInfo}
use uefilinux.Machine.{Machine, Memory}
use uefilinux.Fd.Seek.{KeepsPositions}
use uefilinux.Fd.Seek.Lands.{HasPositions}

-- An error has the top bit of its 64-bit status.
abbrev pub error : ℕ
error = 0x8000_0000_0000_0000

abbrev pub date_2024 : EfiTime
date_2024 = record { year = 2024; month = 3; day = 1; hour = 12; minute = 30; second = 15 }

abbrev pub notes : FileInfo
notes = record {
  file_size = 100;
  physical_size = 512;
  attribute = 0;
  create_time = date_2024;
  last_access_time = date_2024;
  modification_time = date_2024;
  file_name = b'n' ∷ b'o' ∷ [];
}

-- A name that starts with `x` is not found; every other file has handle 7. The user always types `a`.
abbrev pub firmware : Firmware ℕ
firmware = record {
  is_error = λ s. ltb 0x7fff_ffff_ffff_ffff s;
  success = 0;
  end_of_file = error + 31;
  aborted = error + 21;
  write_protected = error + 8;
  access_denied = error + 15;
  volume_full = error + 11;
  not_found = error + 14;
  invalid_parameter = error + 2;
  file_directory = 16;
  initialize_lib = λ h w. w;
  handle_protocol = λ h g w. (some 3, w);
  device_handle = λ h. 4;
  open_volume = λ h w. (some 5, w);
  open_file = λ v name mode attributes w. elim name [
    | [] ↦ ((0, 7), w)
    | c ∷ rest ↦ if c == b'x' then ((error + 14, 0), w) else ((0, 7), w)
  ];
  close = λ h w. (0, w);
  flush = λ h w. (0, w);
  set_position = λ h p w. (0, if p == 0xffff_ffff_ffff_ffff then 100 else p);
  get_position = λ h w. ((0, w), w);
  read = λ h count w. ((0, 2, b'h' ∷ b'i' ∷ []), w + 2);
  read_directory = λ h w. ((0, some notes), w);
  write = λ h bytes w. ((0, 1), w + 1);
  get_info = λ h w. (if h == 9 then ((error + 15, notes), w) else ((0, notes), w));
  set_info = λ h info w. (0, w);
  output_string = λ text w. (0, w);
  wait_for_key = λ w. w;
  read_key_stroke = λ w. (some b'a', w);
  stall = λ n w. (0, w);
  get_time = λ w. (some date_2024, w);
  exit_image = λ image status w. w;
  reset_system = λ kind status size text w. w;
  allocate_pool = λ size w. ((0, 4096), w);
  free_pool = λ p w. (0, w);
}

pub firmware-KeepsPositions : KeepsPositions firmware (λ h w. 100)
firmware-KeepsPositions = record {
  set_get = λ h p w ne good.
      (let other : (p == 0xffff_ffff_ffff_ffff) ≡ false = ground arith in rw other, refl);
  set_end = λ h w good. (refl, refl);
}

abbrev pub firmware-HasPositions : HasPositions firmware
firmware-HasPositions = record {
  at = λ h w. w;
  size = λ h w. 100;
  set_done = λ h p w good. refl;
  set_kept = λ h p w bad. absurd (ground arith);
  set_size = λ h p w. refl;
  get_at = λ h w good. refl;
  get_kept = λ h w. refl;
  get_size = λ h w. refl;
}

-- `x` at 100, `f` at 200, and three bytes at 300.
abbrev pub memory : Memory
memory = record {
  bytes = λ p.
      if p == 100
      then b'x'
      else if p == 200
      then b'f'
      else if p == 300
      then b'h'
      else if p == 301
      then b'\n'
      else if p == 302
      then b'i'
      else 0;
  timevals = λ p. record { tv_sec = 5; tv_usec = 250 };
  stats = λ p. record {
    st_dev = 0;
    st_ino = 0;
    st_nlink = 0;
    st_mode = 0;
    st_uid = 0;
    st_gid = 0;
    st_rdev = 0;
    st_size = 33;
    st_blksize = 0;
    st_blocks = 0;
    st_atim = (0, 0);
    st_mtim = (0, 0);
    st_ctim = (0, 0);
  };
  dirents = λ p. record { d_ino = 1; d_off = 0; d_reclen = 0; d_type = 0; d_name = [] };
}

abbrev pub machine : List ℕ → Machine ℕ
machine fds = record {
  image = 1;
  volume = 5;
  fds = fds;
  fres = replicate 1024 0;
  mem = memory;
  world = 0;
}

-- Slots 1 and 2 hold handle 7, slot 3 holds 9.
abbrev pub shared_fds : List ℕ
shared_fds = 0 ∷ 7 ∷ 7 ∷ 9 ∷ replicate 12 0

abbrev pub shared : Machine ℕ
shared = machine shared_fds

abbrev pub empty : Machine ℕ
empty = machine (replicate 16 0)
