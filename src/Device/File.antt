-- ===== src/Device/File.antt =====
-- `io_file` of include/io_file.h and src/io_file.cpp.
use rvnsyncpoint.Base.{
  ℕ, zero, suc, Bool, true, false, not, ◌||◌, List, [], ◌∷◌, ◌==◌, ltb, if◌then◌else◌,
}
use rvnsyncpoint.Outcome.{Outcome, Error, ok, throws, crash, stuck}
use rvnsyncpoint.Stream
use rvnsyncpoint.Stream.{StreamableFile, streamable_file, read_u32, read_u64}
use rvnsyncpoint.Stream.Ifstream.{Files}
use rvnsyncpoint.Device.{Device, read_device}

abbrev pub io_file_magic : ℕ
io_file_magic = 0x69636e79734e5652

-- The std::map, in the order of its keys.
abbrev pub Devices : Type 0
Devices = List (ℕ × Device)

-- `devices_[id] = d`
unfoldable pub assign : ℕ → Device → Devices → Devices
assign id d [] = (id, d) ∷ []
assign id d ((k, e) ∷ rest) =
    let later = assign id d rest in
    if ltb k id then (k, e) ∷ later else if k == id then (id, d) ∷ rest else (id, d) ∷ (k, e) ∷ rest

pub record IoFile : Type 0 where
  pub file : StreamableFile
  pub devices : Devices

unfoldable pub io_file : Bool → IoFile
io_file unset_opened = record { file = streamable_file unset_opened; devices = [] }

-- The loop over the devices; it does not look at the end of the file. The number is `size - i`.
unfoldable pub read_devices : ℕ → ℕ → IoFile → Outcome Bool × IoFile
read_devices limit zero = λ s. (ok true, s)
read_devices limit (suc left) =
    let rest = read_devices limit left in
    λ s.
      let (r, f) = read_device limit s.file in
      elim r [
        | ok d ↦ rest (record { file = f; devices = assign d.id d s.devices })
        | throws e ↦ (throws e, record s { file = f })
        | crash ↦ (crash, record s { file = f })
        | stuck ↦ (stuck, record s { file = f })
      ]

-- Behind the magic number: the version, which is not looked at, and the number of devices.
unfoldable pub load_devices : ℕ → IoFile → Outcome Bool × IoFile
load_devices limit s =
    let (version, f1) = read_u32 s.file in
    let (size, f2) = read_u64 f1 in
    if f2.eof
    then (ok false, record s { file = Stream.close f2 })
    else read_devices limit size (record s { file = f2 })

unfoldable pub load_magic : ℕ → IoFile → Outcome Bool × IoFile
load_magic limit s =
    let (magic, f) = read_u64 s.file in
    if f.eof
    then (ok false, record s { file = Stream.close f })
    else if not (magic == io_file_magic)
    then (throws (Error.bad_io_magic magic), record s { file = Stream.close f })
    else load_devices limit (record s { file = f })

unfoldable pub load : Files → ℕ → ℕ → IoFile → Outcome Bool × IoFile
load files limit file_path s =
    let f : StreamableFile = Stream.load files file_path s.file in
    let cleared : IoFile = record { file = f; devices = [] } in
    if f.eof || not f.opened then (ok false, cleared) else load_magic limit cleared
