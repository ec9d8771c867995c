-- ===== src/Tests/Files.antt =====
-- Runs of the sync file reader, and its theorems at concrete inputs.
use rvnsyncpoint.Base.{
  ℕ, suc, ◌-◌, ◌/◌, ◌≡◌, ◌≢◌, refl, true, false, some, none, [], ap, length, arith,
}
use rvnsyncpoint.Base.Bytes.{le_bytes, le_value}
use mathlib.Core.Option
use rvnsyncpoint.Outcome.{ok, stuck}
use rvnsyncpoint.Stream.{read_uint}
use rvnsyncpoint.Stream.Cursor.{at}
use rvnsyncpoint.SyncPoint.{sync_point, valid, same_point, from_v2}
use rvnsyncpoint.SyncPoint.Types.{vmenter}
use rvnsyncpoint.SyncFile.State.{SyncFile, header_size, sync_file}
use rvnsyncpoint.SyncFile.Load.{load}
use rvnsyncpoint.SyncFile.Load.Result.{answer, load-answer}
use rvnsyncpoint.SyncFile.Load.Opened.{load-IsAt}
use rvnsyncpoint.SyncFile.Entry.{read_v2, read_v3, set_type}
use rvnsyncpoint.SyncFile.Entry.Layout.{entry_v2, entry_v3, read_v2-at, read_v3-at}
use rvnsyncpoint.SyncFile.Blocks.{read_blocks}
use rvnsyncpoint.SyncFile.Blocks.Ends.{read_blocks-ne-none}
use rvnsyncpoint.SyncFile.Points.{next, next_loop, read_entry, read_point, forget_event}
use rvnsyncpoint.SyncFile.Points.Landing.{IsAt, Shows}
use rvnsyncpoint.SyncFile.Points.Next.{NextLands, next-lands}
use rvnsyncpoint.SyncFile.Points.Ends.{next-returns}
use rvnsyncpoint.SyncFile.Seek.{seek, seek_from_end}
use rvnsyncpoint.SyncFile.Seek.Landing.{IsOpen, seek-lands}
use rvnsyncpoint.SyncFile.Seek.Beyond.{seek_from_end-lands, seek_from_end-diverges}
use rvnsyncpoint.Tests.Inputs.{scenario, files, zeros_v2, stack, new_file, reading}

pub length-scenario : length scenario ≡ 1264
unfolding le_bytes
length-scenario = refl

-- The second record repeats the first, and is skipped.
second_record_skipped :
    ((next stack 9 (next stack 9 reading).1).1.position ≡ 3)
    × ((next stack 9 (next stack 9 reading).1).1.current.type ≡ vmenter)
unfolding next next_loop same_point sync_file read_point set_type read_entry read_v2 read_uint
    le_value le_bytes from_v2 forget_event
second_record_skipped = (refl, refl)

pub reading-IsAt : IsAt scenario 2 80 0 reading
unfolding sync_file
reading-IsAt = record { version = refl; size = refl; place = refl; position = refl }

reading-IsOpen : IsOpen scenario 2 80 reading
reading-IsOpen = record {
  version = refl;
  size = refl;
  contents = refl;
  is_open = refl;
  opened = refl;
}

load-answer_example : (load files 1 0 new_file).0 ≡ answer (some scenario) none
load-answer_example =
    load-answer files 1 0 new_file
      (λ bytes e. omega (arith, length-scenario, ap (λ o. length (Option.get_or o [])) e))

load-IsAt_example :
    (s : SyncFile) × (load files 1 0 new_file ≡ (ok true, s))
    × IsAt scenario 2 80 0 s
    × (s.sync_point_count ≡ (length scenario - header_size) / 80)
    × (s.current ≡ new_file.current)
unfolding le_value le_bytes
load-IsAt_example =
    load-IsAt files 1 0 scenario new_file refl (omega arith) (omega arith) refl (omega arith)
      (omega arith) refl

read_v2-at_example :
    read_v2 zeros_v2 (at scenario 1024) ≡ (entry_v2 scenario 1024 zeros_v2, at scenario 1104)
read_v2-at_example = read_v2-at zeros_v2 scenario 1024 (omega (arith, length-scenario))

read_v3-at_example :
    read_v3 203 sync_point (at scenario 1024)
    ≡ (entry_v3 scenario 1024 sync_point, at scenario 1227)
read_v3-at_example = read_v3-at 203 sync_point scenario 1024 (omega (arith, length-scenario))

read_blocks-ne-none_example : (read_blocks 1265 (at scenario 0)).0 ≢ none
read_blocks-ne-none_example =
    read_blocks-ne-none 1265 (at scenario 0) (omega (arith, length-scenario))

next-lands_example : NextLands scenario 2 80 0 reading.current (next stack 1265 reading)
next-lands_example =
    next-lands stack scenario 2 80 1265 0 reading refl (omega (arith, length-scenario))
      (omega (arith, length-scenario)) reading-IsAt

next-returns_example : (s : SyncFile) × (next stack 1265 reading ≡ (ok s.current, s))
next-returns_example =
    next-returns stack scenario 1265 1024 reading refl (omega (arith, length-scenario))

seek-lands_example :
    (s : SyncFile) × (seek stack 1 3 reading ≡ (ok tt, s))
    × IsAt scenario 2 80 3 s
    × Shows scenario 2 1184 s.current
    × (s.last_valid_position ≡ 2)
unfolding le_bytes le_value
seek-lands_example =
    seek-lands stack scenario 2 80 0 2 reading refl (omega (arith, length-scenario)) reading-IsOpen
      (omega (arith, length-scenario)) (omega arith)

seek_from_end-lands_example :
    (s : SyncFile) × (seek_from_end 1 reading ≡ (ok tt, s))
    × IsAt scenario 2 80 1 s
    × (s.current ≡ sync_point)
    × (s.last_valid_position ≡ 1)
seek_from_end-lands_example =
    seek_from_end-lands scenario 2 80 3 1 reading reading-IsOpen (omega (arith, length-scenario))
      (omega arith) (omega (arith, length-scenario)) (omega arith)

-- The same reader in the 64-bit format: 16 records of 203 bytes do not fit the file.
abbrev recent : SyncFile
recent = record reading { version = 3; record_size = 203 }

seek_from_end-diverges_example :
    (s s' : SyncFile) × (seek_from_end 15 recent ≡ (ok tt, s))
    × ((rounds : ℕ) → next stack (suc rounds) s ≡ (ok s'.current, s'))
    × (valid s'.current ≡ false)
    × ((rounds : ℕ) → (next stack rounds s').0 ≡ stuck)
seek_from_end-diverges_example =
    seek_from_end-diverges stack scenario 3 203 15 recent
      (record { version = refl; size = refl; contents = refl; is_open = refl; opened = refl })
      (omega arith) (omega (arith, length-scenario)) (omega arith)
