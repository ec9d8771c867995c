-- ===== src/SyncFile/Seek.antt =====
-- `sync_file::seek` and `sync_file::seek_from_end`. Positions are uint64_t.
pub mod Landing
pub mod Beyond
use rvnsyncpoint.Base.{ℕ, ◌+◌, ◌-◌, ◌*◌, ◌/◌, ◌%◌, ◌==◌, if◌then◌else◌}
use rvnsyncpoint.Stream
use rvnsyncpoint.SyncPoint.{sync_point}
use rvnsyncpoint.SyncFile.State.{
  SyncFile, Action, ◌>>=◌, ◌>>◌, gets, on_file, modify, modify_file, header_size, u64_mod,
}
use rvnsyncpoint.SyncFile.Points.{Stack, next}

-- `HEADER_SIZE + record_size_ * position_`
abbrev pub offset_of : ℕ → ℕ → ℕ
offset_of record_size position = (header_size + record_size * position) % u64_mod

-- The state in which `seek` calls `next`, for a position that is not 0.
unfoldable pub place : ℕ → SyncFile → SyncFile
place position s = record s {
  position = position - 1;
  file = Stream.seek (offset_of s.record_size (position - 1)) s.file;
  current = sync_point;
}

-- `seek(0)`
unfoldable pub rewind : SyncFile → SyncFile
rewind s = record s {
  last_valid_position = 0;
  current = sync_point;
  file = Stream.seek header_size s.file;
  position = 0;
}

abbrev pub mark_valid : SyncFile → SyncFile
mark_valid s = record s { last_valid_position = if s.position == 0 then 0 else s.position - 1 }

unfoldable pub seek : Stack → ℕ → ℕ → Action (Unit {0})
seek stack rounds position = do
  size ← gets (λ s. s.record_size)
  if size == 0
      then modify (λ s. record s { position = 0 })
      else if position == 0
      then modify rewind
      else do modify (place position); next stack rounds; modify mark_valid

unfoldable pub seek_from_end : ℕ → Action (Unit {0})
seek_from_end position = do
  size ← gets (λ s. s.record_size)
  if size == 0 then modify (λ s. record s { position = 0 }) else do
    modify (λ s. record s { current = sync_point })
    modify_file (Stream.seek_from_end (size * ((position + 1) % u64_mod) % u64_mod))
    reached ← on_file Stream.pos
    modify λ s. record s {
      position = (reached + u64_mod - header_size) % u64_mod / size;
      last_valid_position = position;
    }
