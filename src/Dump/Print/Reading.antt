-- ===== src/Dump/Print/Reading.antt =====
-- What is read of the text of the tools.
use rvnsyncpoint.Base.{
  ℕ, zero, suc, ◌≡◌, refl, ap, Bool, List, [], ◌∷◌, ◌++◌, All, append_assoc, not, if-both, arith,
}
use mathlib.Core.Path.{subst}
use rvnsyncpoint.Outcome.{Outcome, ok, throws, crash, stuck}
use rvnsyncpoint.Stream.Ifstream.{Files}
use rvnsyncpoint.Ostream.{Ostream, ostream}
use rvnsyncpoint.Ostream.Reader.{finish, run}
use rvnsyncpoint.Ostream.Rows.{
  IsIdle, reading, str-IsIdle, number-IsIdle, endl-IsIdle, setw-IsIdle, setfill-IsIdle, dec-IsIdle,
  nothing-IsIdle,
}
use rvnsyncpoint.SyncPoint.{SyncPoint, valid}
use rvnsyncpoint.SyncPoint.Print.Reading.{registers, print_sync_point-IsIdle}
use rvnsyncpoint.SyncEvent.{SyncEvent}
use rvnsyncpoint.SyncEvent.Print.Items.{event_items}
use rvnsyncpoint.SyncEvent.Print.Reading.{print_sync_event-IsIdle}
use rvnsyncpoint.SyncFile.State.{SyncFile, Action, Unset, sync_file, ◌>>=◌, pure}
use rvnsyncpoint.SyncFile.Load.{load}
use rvnsyncpoint.SyncFile.Points.{Stack, next}
use rvnsyncpoint.SyncFile.Events.{current_event}
use rvnsyncpoint.Dump.{
  Line, Run, count_line, point_line, event_line, data_line, while_next, print, test, print_point,
  print_event, dump_loaded, dump_sync_points, dump_sync_events,
}
use rvnsyncpoint.Dump.Print.{print_line, print_lines, output}

-- What a line shows. The blocks of dumped memory are no labelled values, and the time stamp before
-- them is not always hexadecimal.
abbrev pub line_items : Line → List (List ℕ × ℕ)
line_items (count_line count) = []
line_items (point_line position point) = registers point
line_items (event_line event) = event_items event
line_items (data_line tsc blocks) = []

abbrev pub lines_items : List Line → List (List ℕ × ℕ)
lines_items [] = []
lines_items (line ∷ rest) = line_items line ++ lines_items rest

abbrev IsLabelled : Line → Type 0
IsLabelled (data_line tsc blocks) = ⊥
IsLabelled _ = Unit

print_line-IsIdle :
    (items : List (List ℕ × ℕ)) (line : Line) (o : Ostream)
    → IsLabelled line
    → IsIdle items o
    → IsIdle (items ++ line_items line) (print_line line o)
unfolding print_line
print_line-IsIdle items (count_line count) o l i =
    nothing-IsIdle (endl-IsIdle (number-IsIdle count (str-IsIdle "Number of sync points: " refl i)))
print_line-IsIdle items (point_line position point) o l i = print_sync_point-IsIdle items point _ (
    str-IsIdle ": " refl (
      number-IsIdle position
        (setw-IsIdle 8 (dec-IsIdle (setfill-IsIdle b' ' (λ e. absurd (omega arith)) i)))))
print_line-IsIdle items (event_line event) o l i =
    endl-IsIdle (print_sync_event-IsIdle event items o i)
print_line-IsIdle items (data_line tsc blocks) o l i = absurd l

print_lines-IsIdle :
    (items : List (List ℕ × ℕ)) (lines : List Line) (o : Ostream)
    → All IsLabelled lines
    → IsIdle items o
    → IsIdle (items ++ lines_items lines) (print_lines lines o)
unfolding print_lines
print_lines-IsIdle items [] o l i = nothing-IsIdle i
print_lines-IsIdle items (line ∷ rest) o l i =
    subst (λ xs. IsIdle xs (print_lines rest (print_line line o)))
      (append_assoc items (line_items line) (lines_items rest))
      (print_lines-IsIdle (items ++ line_items line) rest (print_line line o) l.1
        (print_line-IsIdle items line o l.0 i))

-- The loops print such lines, however they end.
abbrev Labels : Outcome Line × SyncFile → Type 0
Labels (ok line, s) = IsLabelled line
Labels _ = Unit

All-append_one :
    (lines : List Line) (line : Line)
    → All IsLabelled lines
    → IsLabelled line
    → All IsLabelled (lines ++ (line ∷ []))
All-append_one [] line h l = (l, tt)
All-append_one (x ∷ lines) line h l = (h.0, All-append_one lines line h.1 l)

print-Labels :
    (r : Outcome Line × SyncFile) (out : List Line) (rest : List Line → SyncFile → Run)
    → Labels r
    → All IsLabelled out
    → ((lines : List Line) (s : SyncFile) → All IsLabelled lines → All IsLabelled (rest lines s).1)
    → All IsLabelled (print r out rest).1
print-Labels (ok line, s) out rest l h g = g (out ++ (line ∷ [])) s (All-append_one out line h l)
print-Labels (throws e, s) out rest l h g = h
print-Labels (crash, s) out rest l h g = h
print-Labels (stuck, s) out rest l h g = h

module _ (body : Action Line) (stack : Stack) (rounds : ℕ)
    (labelled : (s : SyncFile) → Labels (body s)) where
  test-IsLabelled :
      (r : Outcome SyncPoint × SyncFile) (out : List Line) (rest : List Line → SyncFile → Run)
      → All IsLabelled out
      → ((lines : List Line) (s : SyncFile)
          → All IsLabelled lines
          → All IsLabelled (rest lines s).1)
      → All IsLabelled (test body r out rest).1
  test-IsLabelled (ok point, s) out rest h g =
      if-both (λ (r : Run). All IsLabelled r.1) (not (valid point)) (ok tt, out, s)
        (print (body s) out rest) (λ _. h) (λ _. print-Labels (body s) out rest (labelled s) h g)
  test-IsLabelled (throws e, s) out rest h g = h
  test-IsLabelled (crash, s) out rest h g = h
  test-IsLabelled (stuck, s) out rest h g = h

  while_next-IsLabelled :
      (left : ℕ) (out : List Line) (s : SyncFile)
      → All IsLabelled out
      → All IsLabelled (while_next body stack rounds left out s).1
  unfolding while_next
  while_next-IsLabelled zero out s h = h
  while_next-IsLabelled (suc left) out s h =
      test-IsLabelled (next stack rounds s) out (while_next body stack rounds left) h
        (while_next-IsLabelled left)

  dump_loaded-IsLabelled :
      (first : SyncFile → List Line) (left : ℕ) (r : Outcome Bool × SyncFile)
      → ((s : SyncFile) → All IsLabelled (first s))
      → All IsLabelled (dump_loaded first body stack rounds left r).1
  dump_loaded-IsLabelled first left (ok _, s) h = while_next-IsLabelled left (first s) s (h s)
  dump_loaded-IsLabelled first left (throws e, s) h = tt
  dump_loaded-IsLabelled first left (crash, s) h = tt
  dump_loaded-IsLabelled first left (stuck, s) h = tt

print_event-Labels :
    (stack : Stack) (rounds : ℕ) (s : SyncFile) → Labels (print_event stack rounds s)
unfolding print_event
print_event-Labels stack rounds s = printed (current_event stack rounds s)
  where
    printed :
        (r : Outcome SyncEvent × SyncFile)
        → Labels (((λ _. r) >>= (λ event. pure (event_line event))) s)
    printed (ok event, t) = tt
    printed (throws e, t) = tt
    printed (crash, t) = tt
    printed (stuck, t) = tt

-- What is read of a run's text is what its lines show.
abbrev pub IsRead : Run → Type 0
IsRead r = finish (reading (output r)) ≡ lines_items r.1

labelled-IsRead : (r : Run) → All IsLabelled r.1 → IsRead r
unfolding run
labelled-IsRead r l =
    let empty : IsIdle [] ostream = record {
      reads = ([], refl);
      bare = refl;
      fill = λ e. absurd (omega arith);
    } in
    ap finish (print_lines-IsIdle [] r.1 ostream l empty).reads.1

-- For every file and reader, and however the run ends: the text that dump_sync_points or
-- dump_sync_events has written by then reads as the registers, by their names, of the points, or of
-- the events, that it has printed, in order.
pub dump-IsRead :
    (files : Files) (no_name : ℕ) (stack : Stack) (unset : Unset) (rounds left file_name : ℕ)
    → IsRead (dump_sync_points files no_name stack unset rounds left file_name)
      × IsRead (dump_sync_events files no_name stack unset rounds left file_name)
unfolding dump_sync_points dump_sync_events
dump-IsRead files no_name stack unset rounds left file_name =
    let opened : Outcome Bool × SyncFile = load files file_name no_name (sync_file unset) in
    let first : SyncFile → List Line = λ s. count_line s.sync_point_count ∷ [] in
    (
      labelled-IsRead (dump_loaded first print_point stack rounds left opened) (
          dump_loaded-IsLabelled print_point stack rounds (λ s. tt) first left opened
            (λ s. (tt, tt))),
      labelled-IsRead (dump_loaded first (print_event stack rounds) stack rounds left opened) (
          dump_loaded-IsLabelled (print_event stack rounds) stack rounds
            (print_event-Labels stack rounds) first left opened (λ s. (tt, tt))),
    )
