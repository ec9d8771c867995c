-- ===== src/Hardware/File.antt =====
-- `hardware_file` of include/hardware_file.h and src/hardware_file.cpp.
use rvnsyncpoint.Base.{ℕ, ◌+◌, ◌-◌, ◌%◌, ◌^◌, Bool, true, false, not, ◌||◌, [], ◌==◌, if◌then◌else◌}
use rvnsyncpoint.Outcome.{Outcome, Error, ok, throws}
use rvnsyncpoint.Stream
use rvnsyncpoint.Stream.{StreamableFile, streamable_file, read_u32, read_u64}
use rvnsyncpoint.Stream.Ifstream.{Files}
use rvnsyncpoint.Hardware.Access.{HardwareAccess, read_access}

abbrev pub hardware_file_magic : ℕ
hardware_file_magic = 0x68636e79734e5652

pub record HardwareFile : Type 0 where
  pub file : StreamableFile
  pub current : HardwareAccess
  pub last_read_position : ℕ
  pub position : ℕ

-- What the memory of a new object held in the members that nothing sets.
pub record Unset : Type 0 where
  pub opened : Bool
  pub physical_address : ℕ
  pub type : ℕ
  pub device_id : ℕ
  pub device_instance : ℕ

unfoldable pub hardware_file : Unset → HardwareFile
unfolding streamable_file
hardware_file unset = record {
  file = streamable_file unset.opened;
  current = record {
    tsc = 0;
    physical_address = unset.physical_address;
    type = unset.type;
    device_id = unset.device_id;
    device_instance = unset.device_instance;
    bytes = [];
  };
  last_read_position = 0;
  position = 0;
}

-- The part of `load` behind the first tests: the magic number and the version, which is not looked
-- at.
unfoldable pub load_header : HardwareFile → Outcome Bool × HardwareFile
load_header s =
    let (magic, f1) = read_u64 s.file in
    let (version, f2) = read_u32 f1 in
    if f2.eof
    then (ok false, record s { file = Stream.close f2 })
    else if not (magic == hardware_file_magic)
    then (throws (Error.bad_hardware_magic magic), record s { file = Stream.close f2 })
    else (let (p, f3) = Stream.pos f2 in (ok true, record s { file = f3; last_read_position = p }))

unfoldable pub load : Files → ℕ → HardwareFile → Outcome Bool × HardwareFile
load files file_path s =
    let f : StreamableFile = Stream.load files file_path s.file in
    if f.eof || not f.opened
    then (ok false, record s { file = f; position = 0 })
    else load_header (record s { file = f; position = 0 })

-- `next`; what it returns is the current access.
unfoldable pub next : HardwareFile → HardwareFile
next s =
    let (p, f) = Stream.pos s.file in
    if not f.eof
    then (let (access, f') = read_access f in
        record s {
          file = f';
          current = access;
          last_read_position = p;
          position = (s.position + 1) % 2 ^ 64;
        })
    else record s { file = f; current = record s.current { tsc = 0 }; last_read_position = p }

unfoldable pub advance_to : ℕ → ℕ → HardwareFile → HardwareFile
advance_to file_position position s =
    let f : StreamableFile = Stream.seek file_position s.file in
    if position == 0
    then record s { file = f; position = 0 }
    else next (record s { file = f; position = position - 1 })

-- The two files behind the call: `pos` can set the fail bit of the other one's stream.
unfoldable pub sync_with : HardwareFile → HardwareFile → HardwareFile × HardwareFile
sync_with other s =
    let (p, f) = Stream.pos other.file in
    (
      record s { file = Stream.seek p s.file; position = other.position; current = other.current },
      record other { file = f },
    )
