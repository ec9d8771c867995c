-- ===== src/Tests/Inputs.antt =====
-- The small files and objects of the tests.
use rvnsyncpoint.Base.{ℕ, true, false, none, some, List, ◌++◌, replicate, ◌==◌, if◌then◌else◌}
use rvnsyncpoint.Base.Bytes.{le_bytes}
use rvnsyncpoint.Stream.Cursor.{at}
use rvnsyncpoint.Stream.Ifstream.{Files}
use rvnsyncpoint.SyncPoint.{SyncPointV2}
use rvnsyncpoint.SyncFile.State.{SyncFile, Unset, sync_file, sync_point_magic}
use rvnsyncpoint.SyncFile.Points.{Stack}

-- A header for 80-byte records in the version 2.
abbrev pub header : List ℕ
header =
    le_bytes 8 sync_point_magic
    ++ (le_bytes 4 2 ++ (le_bytes 4 7 ++ (le_bytes 4 80 ++ replicate 1004 0)))

-- A record with a time stamp, a type and an instruction pointer.
abbrev pub old_record : ℕ → ℕ → ℕ → List ℕ
old_record tsc type eip =
    le_bytes 8 tsc ++ (le_bytes 2 type ++ (replicate 34 0 ++ (le_bytes 4 eip ++ replicate 32 0)))

-- A CPUID exit, the same record again, and the entry behind it.
abbrev pub scenario : List ℕ
scenario =
    header ++ (old_record 7 10 0x1000 ++ (old_record 7 10 0x1000 ++ old_record 9 0xff 0x1002))

abbrev pub files : Files
files name = if name == 1 then some scenario else none

-- What a local variable holds before it is set.
abbrev pub zeros_v2 : SyncPointV2
zeros_v2 = record {
  eax = 0;
  ebx = 0;
  ecx = 0;
  edx = 0;
  esi = 0;
  edi = 0;
  ebp = 0;
  esp = 0;
  eip = 0;
  eflags = 0;
  tsc = 0;
  cr0 = 0;
  cr2 = 0;
  cr3 = 0;
  cr4 = 0;
  fpu_sw = 0;
  fpu_cw = 0;
  fpu_tags = 0;
  cs = 0;
  interrupt_vector = 0;
  fault_error_code = 0;
  type = 0;
}

abbrev pub stack : Stack
stack s = zeros_v2

abbrev pub unset : Unset
unset = record { file_opened = true; data_file_opened = false; record_size = 3; version = 9 }

abbrev pub new_file : SyncFile
new_file = sync_file unset

-- A reader of the scenario at its first record.
abbrev pub reading : SyncFile
reading = record (sync_file unset) { file = at scenario 1024; version = 2; record_size = 80 }
