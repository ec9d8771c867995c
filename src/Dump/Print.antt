-- ===== src/Dump/Print.antt =====
-- The text of the tools for sync files: bin/dump_sync_points, bin/dump_sync_points_data and
-- bin/dump_sync_events, which print to one stream.
pub mod Reading
use rvnsyncpoint.Base.{ℕ, List, [], ◌∷◌}
use rvnsyncpoint.Ostream.{
  Ostream, ostream, Printer, ◌>>◌, skip, str, char, number, endl, dec, setfill, setw,
}
use rvnsyncpoint.SyncPoint.{SyncPointData}
use rvnsyncpoint.SyncPoint.Print.{print_sync_point, print_sync_point_data}
use rvnsyncpoint.SyncEvent.Print.{print_sync_event}
use rvnsyncpoint.Dump.{Line, count_line, point_line, event_line, data_line, Run}

-- The loop over the blocks of a point.
unfoldable pub print_blocks : List SyncPointData → Printer
print_blocks [] = skip
print_blocks (block ∷ rest) =
    char b' ' >> (print_sync_point_data block >> (endl >> print_blocks rest))

unfoldable pub print_line : Line → Printer
print_line (count_line count) = str "Number of sync points: " >> (number count >> endl)
print_line (point_line position point) =
    setfill b' '
    >> (dec >> (setw 8 >> (number position >> (str ": " >> (print_sync_point point >> endl)))))
print_line (event_line event) = print_sync_event event >> endl
print_line (data_line tsc blocks) = str "TSC=" >> (number tsc >> (endl >> print_blocks blocks))

unfoldable pub print_lines : List Line → Printer
print_lines [] = skip
print_lines (line ∷ rest) = print_line line >> print_lines rest

-- What a run has written to `std::cout`.
abbrev pub output : Run → Ostream
output (_, lines, _) = print_lines lines ostream
