-- ===== src/SyncFile/Events.antt =====
-- `sync_file::current_event` and `sync_file::advance_to`.
pub mod Wrap
pub mod Kept
pub mod Kinds
pub mod Advance
pub mod Zeros
pub mod Blank
pub mod Endless
use rvnsyncpoint.Base.{
  ℕ, zero, suc, ◌+◌, ◌-◌, ◌%◌, Bool, true, false, not, ◌&&◌, ◌||◌, ltb, ◌==◌, if◌then◌else◌,
}
use rvnsyncpoint.Outcome.{ok, throws, crash, stuck}
use rvnsyncpoint.SyncPoint.{is_vmenter, is_vmexit}
use rvnsyncpoint.SyncEvent.{SyncEvent, are_values_equivalent}
use rvnsyncpoint.SyncFile.State.{Action, ◌>>=◌, ◌>>◌, pure, gets, modify, eof, u64_mod}
use rvnsyncpoint.SyncFile.Points.{Stack}
use rvnsyncpoint.SyncFile.Seek.{seek}
use rvnsyncpoint.SyncFile.Fetch.{fetch_new_event}

-- The event has no effect, and is not the first one.
unfoldable pub is_mergeable : SyncEvent → Bool
is_mergeable event =
    not (event.position == 1)
    && not event.has_interrupt
    && are_values_equivalent event.start_context event.new_context

-- The two events are to be matched at the same time.
unfoldable pub is_repeated : SyncEvent → SyncEvent → Bool
is_repeated event event_next =
    are_values_equivalent event.new_context event_next.start_context
    && event.start_rip == event_next.start_rip
    && not event.is_instruction_emulation

-- The loop that combines an event without effect with the one behind it.
unfoldable pub merge_events : Stack → ℕ → ℕ → SyncEvent → Action SyncEvent
merge_events stack rounds zero event = λ s. (stuck, s)
merge_events stack rounds (suc left) event =
    let rest : SyncEvent → Action SyncEvent = merge_events stack rounds left in
    if not (is_mergeable event) then pure event else do
      event_next ← fetch_new_event stack rounds
      if is_repeated event event_next
          then rest (record event_next { start_context = event.start_context })
          else seek stack rounds ((event_next.position + u64_mod - 1) % u64_mod) >> pure event

unfoldable pub current_event : Stack → ℕ → Action SyncEvent
current_event stack rounds = do
  kept ← gets (λ s. s.current_event)
  at_end ← gets eof
  if kept.is_valid || at_end then pure kept else do
    first ← fetch_new_event stack rounds
    event ← merge_events stack rounds rounds first
    modify (λ s. record s { current_event = event })
    pure event

-- The loop that goes back to a VM exit.
unfoldable pub back_to_vmexit : Stack → ℕ → ℕ → ℕ → Action (Unit {0})
back_to_vmexit stack rounds zero position = λ s. (stuck, s)
back_to_vmexit stack rounds (suc left) position =
    let back : ℕ = (position + u64_mod - 1) % u64_mod in
    let rest : Action (Unit {0}) = back_to_vmexit stack rounds left back in
    do
      point ← gets (λ s. s.current)
      reached ← gets (λ s. s.position)
      if not (is_vmexit point) && ltb 1 reached then seek stack rounds back >> rest else pure tt

unfoldable pub advance_to : Stack → ℕ → ℕ → Action (Unit {0})
advance_to stack rounds position = do
  seek stack rounds position
  if position == 0 then pure tt else do
    point ← gets (λ s. s.current)
    if not (is_vmenter point)
        then pure tt
        else do back_to_vmexit stack rounds rounds position; current_event stack rounds; pure tt
