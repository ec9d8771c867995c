-- ===== src/Tests/Dump.antt =====
-- Runs of the printing tools, and their theorems at concrete inputs.
use rvnsyncpoint.Base.{◌≡◌, refl, true, [], ◌∷◌, ◌++◌, replicate, take, length, ◌-◌, ◌/◌, arith}
use rvnsyncpoint.Base.Bytes.{le_bytes, le_value}
use rvnsyncpoint.Outcome.{stuck, ok}
use rvnsyncpoint.Stream.Cursor.{at}
use rvnsyncpoint.SyncPoint.{sync_point, valid}
use rvnsyncpoint.SyncFile.State.{SyncFile, header_size}
use rvnsyncpoint.SyncFile.Points.{next}
use rvnsyncpoint.Dump.{count_line, while_next, dump_sync_points, print_point}
use rvnsyncpoint.Dump.Points.{Listed, while_next-Listed, dump_sync_points-Listed}
use rvnsyncpoint.Dump.Endless.{while_next-endless}
use rvnsyncpoint.Tests.Inputs.{scenario, files, stack, unset, reading}
use rvnsyncpoint.Tests.Running.{running}
use rvnsyncpoint.Tests.Files.{length-scenario, reading-IsAt}

-- Of the three records, the second repeats the first.
printed :
    (length (dump_sync_points files 0 stack unset 9 9 1).1 ≡ 3)
    × ((dump_sync_points files 0 stack unset 9 9 1).0 ≡ ok tt)
unfolding running dump_sync_points while_next
printed = (refl, refl)

dump_sync_points-Listed_example :
    Listed scenario 2 80 0 sync_point
      (count_line ((length scenario - header_size) / 80) ∷ [])
      (dump_sync_points files 0 stack unset 1265 4 1)
unfolding le_value le_bytes
dump_sync_points-Listed_example =
    dump_sync_points-Listed files 0 stack unset 1265 4 1 scenario 80 3 refl (omega arith)
      (omega arith) refl (omega arith) refl refl (omega arith) (omega arith) refl

while_next-Listed_example :
    Listed scenario 2 80 0 reading.current [] (while_next print_point stack 1265 4 [] reading)
while_next-Listed_example =
    while_next-Listed stack scenario 2 80 1265 refl (omega (arith, length-scenario))
      (omega (arith, length-scenario)) 4 0 3 [] reading reading-IsAt
      (omega (arith, length-scenario)) (omega arith)

-- The scenario without its last byte: behind the first point, the next one is the record that is
-- cut off.
abbrev cut_off : SyncFile
cut_off = (next stack 9 (next stack 9 (record reading { file = at (take 1263 scenario) 1024 })).1).1

cut_off_valid : (cut_off.file.eof ≡ true) × (valid cut_off.current ≡ true)
unfolding running
cut_off_valid = (refl, refl)

while_next-endless_example :
    while_next (λ t. (ok (count_line t.current.tsc), t)) stack 9 100 [] cut_off
    ≡ (stuck, [] ++ replicate 100 (count_line cut_off.current.tsc), cut_off)
while_next-endless_example =
    while_next-endless (λ t. count_line t.current.tsc) stack 9 100 [] cut_off cut_off_valid.0
      cut_off_valid.1
