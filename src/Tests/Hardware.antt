-- ===== src/Tests/Hardware.antt =====
-- The theorems on hardware accesses at concrete inputs.
use rvnsyncpoint.Base.{
  ℕ, ◌≡◌, refl, true, none, some, List, [], ◌∷◌, ◌++◌, ◌==◌, if◌then◌else◌, length, Bool, arith,
}
use rvnsyncpoint.Base.Bytes.{le_bytes}
use rvnsyncpoint.Outcome.{ok}
use rvnsyncpoint.Stream.Cursor.{at}
use rvnsyncpoint.Stream.Ifstream.{Files}
use rvnsyncpoint.Hardware.Access.{HardwareAccess, read_access}
use rvnsyncpoint.Hardware.File.{
  HardwareFile, Unset, hardware_file, load, next, advance_to, sync_with,
}
use rvnsyncpoint.Hardware.Cursor.{read_next, return_to, observed}
use rvnsyncpoint.Hardware.Cursor.Refines.{hardware_file-refines}
use rvnsyncpoint.Hardware.Layout.{access_bytes, then_access, read_access-written}
use rvnsyncpoint.Hardware.Replay.{
  IsRecorded, IsOn, accesses_bytes, while_valid, while_valid-reads, advance_to-returns,
  sync_with-next,
}
use rvnsyncpoint.Dump.Hardware.{dump_hardware, dump_hardware-shifted, dump_hardware-listed}
use rvnsyncpoint.Reorder.{insert, insert_access}
use rvnsyncpoint.Hardware.Loading.{file_header}

-- An access of a device, with two bytes.
abbrev access : ℕ → ℕ → HardwareAccess
access tsc address = record {
  tsc = tsc;
  physical_address = address;
  type = 5;
  device_id = 3;
  device_instance = 0;
  bytes = 17 ∷ 255 ∷ [];
}

abbrev late : HardwareAccess
late = access 9 0x1000

abbrev early : HardwareAccess
early = access 7 0x2000

late-IsRecorded : IsRecorded late
late-IsRecorded = (
  record {
    tsc = omega arith;
    physical_address = omega arith;
    type = omega arith;
    device_id = omega arith;
    device_instance = omega arith;
    size = omega arith;
    bytes = (omega arith, (omega arith, tt));
  },
  λ e. absurd (omega arith),
)

early-IsRecorded : IsRecorded early
early-IsRecorded = (
  record {
    tsc = omega arith;
    physical_address = omega arith;
    type = omega arith;
    device_id = omega arith;
    device_instance = omega arith;
    size = omega arith;
    bytes = (omega arith, (omega arith, tt));
  },
  λ e. absurd (omega arith),
)

abbrev recording : List HardwareAccess
recording = late ∷ early ∷ []

abbrev unset : Unset
unset = record { opened = true; physical_address = 1; type = 2; device_id = 3; device_instance = 4 }

abbrev hardware_files : Files
hardware_files name = if name == 1 then some (file_header 4 ++ accesses_bytes recording) else none

abbrev writable : ℕ → Bool
writable name = name == 2

read_access-written_example : read_access (at (file_header 0 ++ access_bytes late []) 12) ≡ (
  late,
  at (then_access (file_header 0) late ++ []) (length (then_access (file_header 0) late)),
)
unfolding le_bytes
read_access-written_example = read_access-written (file_header 0) [] late late-IsRecorded.0

-- A reader of the recording at its first access.
abbrev reading : HardwareFile
reading = record (hardware_file unset) {
  file = at (file_header 4 ++ accesses_bytes recording) (length (file_header 4));
}

while_valid-reads_example :
    (while_valid insert_access 5 [] reading).0 ≡ ok ((7, early) ∷ (9, late) ∷ [])
unfolding insert
while_valid-reads_example =
    while_valid-reads insert_access recording 5 (file_header 4) [] reading refl
      (late-IsRecorded, (early-IsRecorded, tt)) (omega arith)

abbrev elsewhere : HardwareFile
elsewhere = record reading { file = at (file_header 4 ++ accesses_bytes recording) 5; position = 3 }

elsewhere-IsOn : IsOn (file_header 4 ++ accesses_bytes recording) elsewhere
elsewhere-IsOn = record { is_open = refl; contents = refl; opened = refl }

advance_to-returns_example :
    advance_to (next reading).last_read_position (next reading).position elsewhere ≡ next reading
unfolding le_bytes hardware_file
advance_to-returns_example =
    advance_to-returns (file_header 4 ++ accesses_bytes recording) (length (file_header 4))
      elsewhere reading refl (omega arith) (omega arith) elsewhere-IsOn

sync_with-next_example :
    (next (sync_with reading elsewhere).0 ≡ next reading)
    × ((sync_with reading elsewhere).1 ≡ reading)
unfolding le_bytes
sync_with-next_example =
    sync_with-next (file_header 4 ++ accesses_bytes recording) (length (file_header 4)) elsewhere
      reading refl (omega arith) elsewhere-IsOn

dump_hardware-shifted_example : dump_hardware hardware_files unset 5 1 (some 0) ≡ ok (early ∷ [])
dump_hardware-shifted_example =
    dump_hardware-shifted hardware_files unset 5 1 4 0 recording refl (omega arith)
      (late-IsRecorded, (early-IsRecorded, tt))

dump_hardware-listed_example : dump_hardware hardware_files unset 5 1 none ≡ ok (late ∷ early ∷ [])
dump_hardware-listed_example =
    dump_hardware-listed hardware_files unset 5 1 4 recording refl (omega arith)
      (late-IsRecorded, (early-IsRecorded, tt)) (omega arith)

-- Two accesses, the end, back to the first one, and on.
hardware_file-refines_example :
    observed
      (read_next ∷ read_next ∷ read_next ∷ return_to 1 ∷ read_next ∷ [])
      (load hardware_files 1 (hardware_file unset)).1
      []
    ≡ some late ∷ some early ∷ none ∷ some late ∷ some early ∷ []
unfolding le_bytes
hardware_file-refines_example =
    hardware_file-refines hardware_files unset 1 4 recording
      (read_next ∷ read_next ∷ read_next ∷ return_to 1 ∷ read_next ∷ []) refl (omega arith)
      (late-IsRecorded, (early-IsRecorded, tt)) (omega arith)
