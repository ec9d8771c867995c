-- ===== src/Reorder.antt =====
-- bin/reorder_hardware/reorder_hardware.cpp: a file of hardware accesses, written out again in the
-- order of the time stamps. The tool is built with its assertion.
pub mod Order
pub mod Output
use rvnsyncpoint.Base.{ℕ, List, [], ◌∷◌, leb, if◌then◌else◌, Bool}
use rvnsyncpoint.Outcome.{Outcome, ok, throws, crash, stuck}
use rvnsyncpoint.Stream.Ifstream.{Files}
use rvnsyncpoint.Outfile
use rvnsyncpoint.Outfile.{
  StreamableOutfile, streamable_outfile, Write, ◌>>◌, write_u8, write_u32, write_u64, write_vector,
}
use rvnsyncpoint.Hardware.Access.{HardwareAccess}
use rvnsyncpoint.Hardware.File.{HardwareFile, Unset, hardware_file, hardware_file_magic, load}
use rvnsyncpoint.Hardware.Replay.{while_valid}

-- The std::multimap, in the order of its keys.
abbrev pub Multimap : Type 0
Multimap = List (ℕ × HardwareAccess)

-- `multimap::insert` places the pair behind those with the same key.
unfoldable pub insert : ℕ → HardwareAccess → Multimap → Multimap
insert key access [] = (key, access) ∷ []
insert key access ((k, a) ∷ rest) =
    let later = insert key access rest in
    if leb k key then (k, a) ∷ later else (key, access) ∷ (k, a) ∷ rest

-- The body of the reading loop.
abbrev pub insert_access : HardwareAccess → Multimap → Multimap
insert_access access accesses = insert access.tsc access accesses

unfoldable pub write_access : HardwareAccess → Write
write_access access =
    write_u64 access.tsc
    >> write_u64 access.physical_address
    >> write_u64 access.type
    >> write_u64 access.device_id
    >> write_u32 access.device_instance
    >> write_vector write_u8 access.bytes

-- The writing loop, with its assertion that `current_tsc` does not decrease.
unfoldable pub write_accesses :
    ℕ → Multimap → StreamableOutfile → Outcome (Unit {0}) × StreamableOutfile
write_accesses current_tsc [] out = (ok tt, out)
write_accesses current_tsc ((key, access) ∷ rest) out =
    let written = write_accesses access.tsc rest (write_access access out) in
    if leb current_tsc access.tsc then written else (crash, out)

abbrev pub write_header : Write
write_header = write_u64 hardware_file_magic >> write_u32 0

-- Both loops, from the loaded file.
unfoldable pub reorder_file : ℕ → HardwareFile → StreamableOutfile → Outcome ℕ × StreamableOutfile
reorder_file rounds file out = elim (while_valid insert_access rounds [] file).0 [
  | ok accesses ↦
      let (r, out') = write_accesses 0 accesses out in
      elim r [
        | ok _ ↦ (ok 0, out')
        | throws e ↦ (throws e, out')
        | crash ↦ (crash, out')
        | stuck ↦ (stuck, out')
      ]
  | throws e ↦ (throws e, out)
  | crash ↦ (crash, out)
  | stuck ↦ (stuck, out)
]

-- `main`: the exit code, and the output stream as it is left. An answer `false` of `load` is not
-- looked at. The input file stays as it is while the output is written, which is so where the two
-- names are those of different files; with one name for both, opening the output cuts the input off.
unfoldable pub main : Files → (ℕ → Bool) → Unset → ℕ → List ℕ → Outcome ℕ × StreamableOutfile
main files writable unset rounds (program ∷ source ∷ dest ∷ []) =
    let (r, file) = load files source (hardware_file unset) in
    elim r [
      | ok _ ↦
          reorder_file rounds file
            (write_header (Outfile.open_file writable dest streamable_outfile))
      | throws e ↦ (throws e, streamable_outfile)
      | crash ↦ (crash, streamable_outfile)
      | stuck ↦ (stuck, streamable_outfile)
    ]
main files writable unset rounds _ = (ok 1, streamable_outfile)
