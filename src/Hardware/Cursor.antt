-- ===== src/Hardware/Cursor.antt =====
-- What `hardware_file` promises its clients, as a cursor over a list of accesses: `next` goes to the
-- next one, and `advance_to` returns to one whose `file_position()` and `position()` were kept.
pub mod Places
pub mod Refines
use rvnsyncpoint.Base.{ℕ, zero, suc, Option, none, some, List, [], ◌∷◌, get_elem?, if◌then◌else◌}
use rvnsyncpoint.Hardware.Access.{HardwareAccess, valid}
use rvnsyncpoint.Hardware.File.{HardwareFile, next, advance_to}
use rvnsyncpoint.Hardware.Ends.{shown}

-- What a client calls. It keeps a mark of every access that is valid, the last one first.
pub data Command : Type 0 where
  read_next : Command
  return_to : ℕ → Command

-- The accesses that the reader shows behind each call. A mark is what the reader's accessors give.
abbrev pub keep_mark : HardwareFile → List (ℕ × ℕ) → List (ℕ × ℕ)
keep_mark s marks = if valid s.current then (s.last_read_position, s.position) ∷ marks else marks

abbrev pub jump : Option (ℕ × ℕ) → HardwareFile → HardwareFile
jump none s = s
jump (some (file_position, position)) s = advance_to file_position position s

abbrev pub observed : List Command → HardwareFile → List (ℕ × ℕ) → List (Option HardwareAccess)
observed [] s marks = []
observed (read_next ∷ commands) s marks =
    shown (next s) ∷ observed commands (next s) (keep_mark (next s) marks)
observed (return_to k ∷ commands) s marks =
    let s' = jump (get_elem? marks k) s in shown s' ∷ observed commands s' marks

-- The cursor: behind so many accesses, or past the end.
pub data Place : Type 0 where
  behind : ℕ → Place
  past : Place

module _ (accesses : List HardwareAccess) where
  abbrev pub displayed : Place → Option HardwareAccess
  displayed (behind zero) = none
  displayed (behind (suc i)) = get_elem? accesses i
  displayed past = none

  abbrev pub forward : Place → Place
  forward (behind i) = elim (get_elem? accesses i) [ none ↦ past | some access ↦ behind (suc i) ]
  forward past = past

  -- A mark is the index of an access.
  abbrev pub keep_index : Place → List ℕ → List ℕ
  keep_index (behind (suc i)) marks = i ∷ marks
  keep_index _ marks = marks

  abbrev pub back : Option ℕ → Place → Place
  back none place = place
  back (some i) place = behind (suc i)

  abbrev pub expected : List Command → Place → List ℕ → List (Option HardwareAccess)
  expected [] place marks = []
  expected (read_next ∷ commands) place marks =
      let place' = forward place in
      displayed place' ∷ expected commands place' (keep_index place' marks)
  expected (return_to k ∷ commands) place marks =
      let place' = back (get_elem? marks k) place in
      displayed place' ∷ expected commands place' marks
