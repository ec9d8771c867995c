-- ===== src/Dump.antt =====
-- The tools that print sync files: bin/dump_sync_points, bin/dump_sync_points_data and
-- bin/dump_sync_events. What they print is a list of values, without its formatting.
pub mod Points
pub mod Endless
pub mod Print
pub mod Accesses
pub mod Devices
pub mod Hardware
use rvnsyncpoint.Base.{ℕ, zero, suc, Bool, not, List, [], ◌∷◌, ◌++◌, if◌then◌else◌}
use rvnsyncpoint.Outcome.{Outcome, ok, throws, crash, stuck}
use rvnsyncpoint.Stream.Ifstream.{Files}
use rvnsyncpoint.SyncPoint.{SyncPoint, SyncPointData, valid}
use rvnsyncpoint.SyncEvent.{SyncEvent}
use rvnsyncpoint.SyncFile.State.{SyncFile, Unset, sync_file, Action, ◌>>=◌, pure, gets}
use rvnsyncpoint.SyncFile.Load.{load}
use rvnsyncpoint.SyncFile.Points.{Stack, next}
use rvnsyncpoint.SyncFile.Events.{current_event}

-- What is printed at a time: the number of points, a position and its point, an event, or a time
-- stamp and the blocks of its point.
pub data Line : Type 0 where
  count_line : ℕ → Line
  point_line : ℕ → SyncPoint → Line
  event_line : SyncEvent → Line
  data_line : ℕ → List SyncPointData → Line

-- How a run ends, what it has printed, and the reader.
abbrev pub Run : Type 0
Run = Outcome (Unit {0}) × List Line × SyncFile

-- The body of a loop prints its line, and the loop goes on.
abbrev pub print : Outcome Line × SyncFile → List Line → (List Line → SyncFile → Run) → Run
print (ok line, s) out rest = rest (out ++ (line ∷ [])) s
print (throws e, s) out rest = (throws e, out, s)
print (crash, s) out rest = (crash, out, s)
print (stuck, s) out rest = (stuck, out, s)

-- The loop's test, on what `next` has returned.
abbrev pub test :
    Action Line → Outcome SyncPoint × SyncFile → List Line → (List Line → SyncFile → Run) → Run
test body (ok point, s) out rest =
    if not (valid point) then (ok tt, out, s) else print (body s) out rest
test body (throws e, s) out rest = (throws e, out, s)
test body (crash, s) out rest = (crash, out, s)
test body (stuck, s) out rest = (stuck, out, s)

-- `while (file.next().valid())`, for at most `left` rounds.
unfoldable pub while_next : Action Line → Stack → ℕ → ℕ → List Line → SyncFile → Run
while_next body stack rounds zero = λ out s. (stuck, out, s)
while_next body stack rounds (suc left) =
    let rest : List Line → SyncFile → Run = while_next body stack rounds left in
    λ out s. test body (next stack rounds s) out rest

-- The bodies of the three loops.
abbrev pub print_point : Action Line
print_point s = (ok (point_line s.position s.current), s)

unfoldable pub print_event : Stack → ℕ → Action Line
print_event stack rounds = do event ← current_event stack rounds; pure (event_line event)

abbrev pub print_data : Action Line
print_data s = (ok (data_line s.current.tsc s.current.blocks), s)

-- Behind `load`, whose answer is not looked at: the line with the number of points, where the tool
-- has one, and the loop.
abbrev pub dump_loaded :
    (SyncFile → List Line) → Action Line → Stack → ℕ → ℕ → Outcome Bool × SyncFile → Run
dump_loaded first body stack rounds left (ok _, s) = while_next body stack rounds left (first s) s
dump_loaded first body stack rounds left (throws e, s) = (throws e, [], s)
dump_loaded first body stack rounds left (crash, s) = (crash, [], s)
dump_loaded first body stack rounds left (stuck, s) = (stuck, [], s)

module _ (files : Files) (no_name : ℕ) (stack : Stack) (unset : Unset) (rounds left : ℕ) where
  -- The three `main` functions on the right number of arguments. `no_name` is the empty string.
  unfoldable pub dump_sync_points : ℕ → Run
  dump_sync_points file_name =
      dump_loaded (λ s. count_line s.sync_point_count ∷ []) print_point stack rounds left
        (load files file_name no_name (sync_file unset))

  unfoldable pub dump_sync_events : ℕ → Run
  dump_sync_events file_name =
      dump_loaded (λ s. count_line s.sync_point_count ∷ []) (print_event stack rounds) stack rounds
        left (load files file_name no_name (sync_file unset))

  unfoldable pub dump_sync_points_data : ℕ → ℕ → Run
  dump_sync_points_data file_name data_file_name =
      dump_loaded (λ _. []) print_data stack rounds left
        (load files file_name data_file_name (sync_file unset))
