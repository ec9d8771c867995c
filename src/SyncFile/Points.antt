-- ===== src/SyncFile/Points.antt =====
-- `sync_file::next`: one synchronisation point after the other.
pub mod Rounds
pub mod Landing
pub mod Next
pub mod Whole
pub mod Ends
use rvnsyncpoint.Base.{ℕ, zero, suc, ◌+◌, ◌%◌, not, ◌&&◌, ltb, if◌then◌else◌}
use rvnsyncpoint.Outcome.{Outcome, ok, throws, crash, stuck}
use rvnsyncpoint.Stream.{StreamableFile}
use rvnsyncpoint.SyncPoint.{SyncPoint, SyncPointV2, from_v2, same_point}
use rvnsyncpoint.SyncEvent.{sync_event}
use rvnsyncpoint.SyncFile.State.{SyncFile, Action, eof, u64_mod}
use rvnsyncpoint.SyncFile.Entry.{Entry, read_v2, read_v3, set_type}
use rvnsyncpoint.SyncFile.Blocks.{load_blocks}

-- What the local `old_sp` holds when a round starts. Its `type` and `interrupt_vector` are never set
-- and are read: the value of what is indeterminate there is a parameter.
abbrev pub Stack : Type 0
Stack = SyncFile → SyncPointV2

-- The entry of the next record, as a 64-bit point.
unfoldable pub read_entry : Stack → SyncFile → Entry SyncPoint × StreamableFile
read_entry stack s =
    if ltb s.version 3
    then (let (entry, f) = read_v2 (stack s) s.file in
        (
          record {
            point = from_v2 entry.point;
            type = entry.type;
            data_offset = entry.data_offset;
          },
          f,
        ))
    else read_v3 s.record_size s.current s.file

-- One round of the loop.
unfoldable pub read_point : Stack → SyncFile → SyncFile
read_point stack s =
    let (entry, f) = read_entry stack s in
    let (blocks, data_file) = load_blocks entry.data_offset s.data_file in
    record s {
      file = f;
      data_file = data_file;
      current = record (set_type entry.type entry.point) { blocks = blocks };
      position = if not f.eof then (s.position + 1) % u64_mod else s.position;
    }

-- The loop, for at most so many rounds.
unfoldable pub next_loop : Stack → ℕ → SyncPoint → SyncFile → Outcome (Unit {0}) × SyncFile
next_loop stack zero prev s = (stuck, s)
next_loop stack (suc rounds) prev s =
    let s' = read_point stack s in
    let rest = next_loop stack rounds prev s' in
    if same_point prev s'.current && not (eof s') then rest else (ok tt, s')

unfoldable pub forget_event : SyncFile → SyncFile
forget_event s = if s.current_event.is_valid then record s { current_event = sync_event } else s

unfoldable pub next : Stack → ℕ → Action SyncPoint
next stack rounds s =
    if eof s
    then (ok s.current, s)
    else (let (r, s') = next_loop stack rounds s.current s in
        elim r [
          | ok _ ↦ (ok s'.current, forget_event s')
          | throws e ↦ (throws e, s')
          | crash ↦ (crash, s')
          | stuck ↦ (stuck, s')
        ])
