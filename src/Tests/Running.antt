-- ===== src/Tests/Running.antt =====
-- What a test unfolds to run the reader of sync files: all of it.
use rvnsyncpoint.Base.{ℕ}
use rvnsyncpoint.Base.Bytes.{le_value, le_bytes}
use rvnsyncpoint.Stream.{read_uint, read_vector, pos}
use rvnsyncpoint.Stream
use rvnsyncpoint.SyncPoint.{
  sync_point, from_v2, is_interrupt, is_vmenter, is_vmexit, valid, same_point, is_equivalent,
}
use rvnsyncpoint.SyncEvent.{context, sync_event, are_values_equivalent, check_sanity}
use rvnsyncpoint.SyncFile.State.{sync_file}
use rvnsyncpoint.SyncFile.Load
use rvnsyncpoint.SyncFile.Load.{count_points, load_data_file, load_version}
use rvnsyncpoint.SyncFile.Entry.{read_v2, read_v3, set_type}
use rvnsyncpoint.SyncFile.Blocks.{read_blocks, read_data, load_blocks}
use rvnsyncpoint.SyncFile.Points.{read_entry, read_point, next_loop, forget_event, next}
use rvnsyncpoint.SyncFile.Seek.{place, rewind, seek, seek_from_end}
use rvnsyncpoint.SyncFile.Fetch.{
  point_context_to_event, first_vmexit_missing, find_vmexit, begin_event, is_emulated,
  complete_event, finish_event, after_interrupt, take_interrupt, continue_event, read_event,
  behind_repeat, behind_interrupt, behind_exit, fetch_new_event,
}
use rvnsyncpoint.SyncFile.Events.{
  is_mergeable, is_repeated, merge_events, current_event, back_to_vmexit, advance_to,
}

unfoldable pub running : ℕ
unfolding le_value le_bytes read_uint read_vector pos Stream.load Stream.close Stream.seek
    Stream.seek_from_end sync_point from_v2 is_interrupt is_vmenter is_vmexit valid same_point
    is_equivalent context sync_event are_values_equivalent check_sanity sync_file Load.load
    count_points load_data_file load_version read_v2 read_v3 set_type read_blocks read_data
    load_blocks read_entry read_point next_loop forget_event next place rewind seek seek_from_end
    point_context_to_event first_vmexit_missing find_vmexit begin_event is_emulated complete_event
    finish_event after_interrupt behind_repeat behind_interrupt behind_exit take_interrupt
    continue_event read_event fetch_new_event is_mergeable is_repeated merge_events current_event
    back_to_vmexit advance_to
running = 0
