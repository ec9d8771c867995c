-- ===== src/SyncFile/Load.antt =====
-- `sync_file::load`.
pub mod Result
pub mod Opened
use rvnsyncpoint.Base.{
  ℕ, ◌+◌, ◌-◌, ◌/◌, ◌%◌, Bool, true, false, not, ◌||◌, ◌==◌, ltb, if◌then◌else◌,
}
use rvnsyncpoint.Outcome.{Outcome, Error, ok, throws, crash, stuck}
use rvnsyncpoint.Stream
use rvnsyncpoint.Stream.{read_u32, read_u64}
use rvnsyncpoint.Stream.Ifstream.{Files}
use rvnsyncpoint.SyncFile.State.{
  SyncFile, Unset, sync_file, Action, ◌>>=◌, ◌>>◌, pure, gets, throw, lift, on_file, on_data_file,
  modify, modify_file, modify_data_file, header_size, u64_mod, sync_point_magic,
  sync_point_data_magic, sync_point_file_version,
}

-- `sync_point_count_ = (file_.pos() - HEADER_SIZE) / record_size_`, on unsigned 64-bit numbers; a
-- division by zero is undefined.
unfoldable pub count_points : Action (Unit {0})
count_points = do
  modify_file (Stream.seek_from_end 0)
  end ← on_file Stream.pos
  size ← gets (λ s. s.record_size)
  if size == 0
      then lift crash
      else modify
          λ s. record s { sync_point_count = (end + u64_mod - header_size) % u64_mod / size }

-- The last part: the data file, for the versions that have one.
unfoldable pub load_data_file : Files → ℕ → Action Bool
load_data_file files data_file_name = do
  modify_data_file (Stream.load files data_file_name)
  at_end ← gets (λ s. s.data_file.eof)
  if at_end then modify_data_file Stream.close >> pure true else do
    magic ← on_data_file read_u64
    if not (magic == sync_point_data_magic)
        then (modify_file Stream.close
            >> modify_data_file Stream.close
            >> throw (Error.bad_data_magic magic))
        else pure true

unfoldable pub load_version : Files → ℕ → Action Bool
load_version files data_file_name = do
  version ← on_file read_u32
  vbox_version ← on_file read_u32
  record_size ← on_file read_u32
  modify (λ s. record s { version = version; record_size = record_size })
  at_end ← gets (λ s. s.file.eof)
  if at_end
      then modify_file Stream.close >> pure false
      else if ltb sync_point_file_version version
      then (modify_file Stream.close
          >> modify (λ s. record s { record_size = 0 })
          >> throw (Error.unhandled_version version))
      else do
        count_points
        modify_file (Stream.seek header_size)
        if version == 0 then pure true else load_data_file files data_file_name

unfoldable pub load : Files → ℕ → ℕ → Action Bool
load files file_name data_file_name = do
  modify_file (Stream.load files file_name)
  modify (λ s. record s { position = 0 })
  unread ← gets (λ s. s.file.eof || not s.file.opened)
  if unread then pure false else do
    magic ← on_file read_u64
    at_end ← gets (λ s. s.file.eof)
    if at_end
        then modify_file Stream.close >> pure false
        else if not (magic == sync_point_magic)
        then (modify_file Stream.close
            >> modify (λ s. record s { record_size = 0 })
            >> throw (Error.bad_magic magic))
        else load_version files data_file_name

-- The constructor with two names; where `load` throws, there is no object.
unfoldable pub open_sync_file : Files → Unset → ℕ → ℕ → Outcome SyncFile
open_sync_file files unset file_name data_file_name =
    let (r, s) = load files file_name data_file_name (sync_file unset) in
    elim r [ ok _ ↦ ok s | throws e ↦ throws e | crash ↦ crash | stuck ↦ stuck ]
