-- ===== src/Tests/Events.antt =====
-- Runs of the event reader, and its theorems at concrete inputs.
use rvnsyncpoint.Base.{◌≡◌, refl, true, false, List, ◌++◌, length, ℕ, ◌<◌, ◌^◌, arith}
use rvnsyncpoint.Outcome.{stuck}
use rvnsyncpoint.Stream.Cursor.{at}
use rvnsyncpoint.SyncPoint.{valid, is_vmexit}
use rvnsyncpoint.SyncEvent.{SyncEvent, sync_event}
use rvnsyncpoint.SyncFile.State.{SyncFile, ◌>>◌, pure}
use rvnsyncpoint.SyncFile.Points.{read_point, next}
use rvnsyncpoint.SyncFile.Points.Landing.{IsAt}
use rvnsyncpoint.SyncFile.Seek.{seek, place}
use rvnsyncpoint.SyncFile.Fetch.{fetch_new_event}
use rvnsyncpoint.SyncFile.Events.{
  is_mergeable, merge_events, current_event, advance_to, back_to_vmexit,
}
use rvnsyncpoint.SyncFile.Events.Wrap.{before_zero, merge_events-rewinds}
use rvnsyncpoint.SyncFile.Fetch.Ends.{Ends}
use rvnsyncpoint.SyncFile.Fetch.Stops.{Stops, IsReady}
use rvnsyncpoint.SyncFile.Fetch.Returns.{fetch_new_event-Stops}
use rvnsyncpoint.SyncFile.Events.Kept.{Kept}
use rvnsyncpoint.SyncFile.Events.Endless.{current_event-endless}
use rvnsyncpoint.SyncFile.Events.Kinds.{kind_at, is_exit_at}
use rvnsyncpoint.SyncFile.Events.Advance.{IsExitOf, advance_to-lands, back_to_vmexit-lands}
use rvnsyncpoint.SyncFile.Points.Landing.{Shows}
use rvnsyncpoint.SyncFile.Seek.Landing.{IsOpen}
use rvnsyncpoint.SyncFile.State.{header_size}
use rvnsyncpoint.Stream.Cursor.{value_at}
use rvnsyncpoint.SyncPoint.Types.{vmenter}
use rvnsyncpoint.Outcome.{ok}
use rvnsyncpoint.Tests.Inputs.{zeros_v2}
use rvnsyncpoint.Base.{◌≤◌, ◌≢◌, ◌⊎◌, inl, inr, ◌+◌, ◌*◌, ◌==◌}
use mathlib.Core.Path.{subst}
use native.Mathlib.Decide.{ℕ_discrete}
use rvnsyncpoint.Tests.Inputs.{reading, stack, header, old_record, scenario}
use rvnsyncpoint.Tests.Files.{length-scenario, reading-IsAt}
use rvnsyncpoint.Tests.Running.{running}

-- An exit without effect, and the entry behind it.
abbrev quiet : List ℕ
quiet =
    header
    ++ (old_record 7 1 0x1000
        ++ (old_record 8 0xff 0x1000 ++ (old_record 9 1 0x2000 ++ old_record 10 0xff 0x2000)))

abbrev at_last_exit : SyncFile
at_last_exit =
    (next stack 9 (next stack 9 (next stack 9 (record reading { file = at quiet 1024 })).1).1).1

-- The last event of the file is without effect: reading it leaves the reader in the header, and the
-- point after that is the first one of the file.
last_event_restarts :
    let (r, s) = current_event stack 9 at_last_exit in
    (at_last_exit.position ≡ 3)
    × (s.position ≡ before_zero)
    × (valid s.current ≡ false)
    × ((next stack 9 s).1.position ≡ 1)
    × ((next stack 9 s).1.current.tsc ≡ 7)
unfolding running
last_event_restarts = (refl, refl, refl, refl, refl)

-- An event without effect.
abbrev idle : SyncEvent
idle = record sync_event { position = 1234; start_rip = 0x1000; is_valid = true }

-- Two whole events of the scenario above, from its first point.
abbrev at_first_exit : SyncFile
at_first_exit = record reading { file = at quiet 1024 }

scenario-fits : length scenario < 2 ^ 63
scenario-fits = omega (arith, length-scenario)

scenario-enough : length scenario < 1265
scenario-enough = omega (arith, length-scenario)

-- From the first of three whole records.
fetch_new_event-Stops_example :
    Stops
      (IsReady stack scenario 2 80 1265 refl scenario-fits scenario-enough 3)
      (fetch_new_event stack 1265 reading)
fetch_new_event-Stops_example =
    fetch_new_event-Stops stack scenario 2 80 1265 0 3 reading refl scenario-fits scenario-enough
      reading-IsAt (omega (arith, length-scenario))

-- At the last VM entry of that file, which the reader has come to without asking for an event.
abbrev at_last_entry : SyncFile
at_last_entry = (next stack 9 at_last_exit).1

at_last_entry-IsAt : IsAt quiet 2 80 4 at_last_entry
unfolding running
at_last_entry-IsAt = record { version = refl; size = refl; place = refl; position = refl }

length-quiet : length quiet ≡ 1344
unfolding running
length-quiet = refl

idle-is_mergeable : is_mergeable idle ≡ true
unfolding running
idle-is_mergeable = refl

at_last_entry-plain :
    (is_vmexit at_last_entry.current ≡ false) × (at_last_entry.current_event.is_valid ≡ false)
unfolding running
at_last_entry-plain = (refl, refl)

current_event-endless_example : (current_event stack 5000 at_last_entry).0 ≡ stuck
current_event-endless_example =
    current_event-endless stack quiet 2 80 5000 4 at_last_entry refl (omega (arith, length-quiet))
      at_last_entry-IsAt (omega (arith, length-quiet)) refl at_last_entry-plain.0
      at_last_entry-plain.1

merge_events-rewinds_example :
    (merge_events stack 9 9 idle at_last_entry
      ≡ (seek stack 9 before_zero >> pure idle) (read_point stack at_last_entry))
    × IsAt quiet 2 80 0
        (read_point stack (read_point stack (place before_zero (read_point stack at_last_entry))))
merge_events-rewinds_example =
    merge_events-rewinds stack quiet 2 80 8 8 4 idle at_last_entry refl (omega arith)
      (omega (arith, length-quiet)) at_last_entry-IsAt (omega (arith, length-quiet)) refl
      at_last_entry-plain.0 at_last_entry-plain.1 idle-is_mergeable refl

-- The last exit is the third record.
quiet_record : (k : ℕ) → 2 ≤ k → k ≤ 3 → (k ≡ 2) ⊎ (k ≡ 3)
quiet_record k low high = elim (ℕ_discrete k 2) [ yes e ↦ inl e | no ne ↦ inr (omega arith) ]

quiet_stamps :
    (value_at quiet (header_size + 80 * 2) 8 ≡ 9) × (value_at quiet (header_size + 80 * 3) 8 ≡ 10)
unfolding running
quiet_stamps = (refl, refl)

quiet-stamped : (j : ℕ) → 2 ≤ j → j ≤ 3 → value_at quiet (header_size + 80 * j) 8 ≢ 0
quiet-stamped j low high zero = elim (quiet_record j low high) [
  | inl e ↦ absurd (
      omega
        (arith, quiet_stamps.0, subst (λ n. value_at quiet (header_size + 80 * n) 8 ≡ 0) e zero))
  | inr e ↦ absurd (
      omega
        (arith, quiet_stamps.1, subst (λ n. value_at quiet (header_size + 80 * n) 8 ≡ 0) e zero))
]

quiet_kinds :
    (is_exit_at quiet (header_size + 80 * 2) ≡ true)
    × (is_exit_at quiet (header_size + 80 * 3) ≡ false)
unfolding running
quiet_kinds = (refl, refl)

quiet-IsExitOf : IsExitOf quiet 80 2 3
quiet-IsExitOf = (
  inl quiet_kinds.0,
  λ j low high.
      let last : 3 ≡ j = omega arith in
      subst (λ n. is_exit_at quiet (header_size + 80 * n) ≡ false) last quiet_kinds.1,
)

at_last_entry-Shows : Shows quiet 2 (header_size + 80 * 3) at_last_entry.current
unfolding running
at_last_entry-Shows = Shows.old (omega arith) zeros_v2 refl

back_to_vmexit-lands_example :
    (u : SyncFile) × (back_to_vmexit stack 9 9 4 at_last_entry ≡ (ok tt, u))
    × IsAt quiet 2 80 3 u
    × Shows quiet 2 (header_size + 80 * 2) u.current
back_to_vmexit-lands_example =
    back_to_vmexit-lands stack quiet 2 80 8 9 2 3 at_last_entry refl (omega (arith, length-quiet))
      (omega (arith, length-quiet)) quiet-stamped quiet-IsExitOf (omega arith) (omega arith)
      at_last_entry-IsAt at_last_entry-Shows

at_first_exit-IsOpen : IsOpen quiet 2 80 at_first_exit
at_first_exit-IsOpen = record {
  version = refl;
  size = refl;
  contents = refl;
  is_open = refl;
  opened = refl;
}

advance_to-lands_example :
    (((kind_at quiet (header_size + 80 * 3) == vmenter) ≡ false)
      × ((t : SyncFile) × (advance_to stack 9 4 at_first_exit ≡ (ok tt, t))
          × IsAt quiet 2 80 4 t
          × Shows quiet 2 (header_size + 80 * 3) t.current))
    ⊎ (((kind_at quiet (header_size + 80 * 3) == vmenter) ≡ true)
        × ((u : SyncFile) × (advance_to stack 9 4 at_first_exit
              ≡ (current_event stack 9 >> pure tt) u)
            × IsAt quiet 2 80 3 u
            × Shows quiet 2 (header_size + 80 * 2) u.current))
advance_to-lands_example =
    advance_to-lands stack quiet 2 80 8 2 3 at_first_exit refl (omega (arith, length-quiet))
      (omega (arith, length-quiet)) quiet-stamped quiet-IsExitOf (omega arith) (omega arith)
      at_first_exit-IsOpen
