-- ===== src/Hardware/Cursor/Refines.antt =====
-- `hardware_file` behaves as the cursor.
use rvnsyncpoint.Base.{
  ℕ, ◌^◌, ◌<◌, ◌≡◌, refl, ap, ◌∙◌, some, List, [], ◌∷◌, ◌++◌, length, get_elem?, All, arith,
}
use rvnsyncpoint.Stream.Ifstream.{Files}
use rvnsyncpoint.Hardware.Access.{HardwareAccess}
use rvnsyncpoint.Hardware.File.{HardwareFile, Unset, hardware_file, load, next}
use rvnsyncpoint.Hardware.Loading.{file_header, loaded, load-written}
use rvnsyncpoint.Hardware.Replay.{IsRecorded, accesses_bytes}
use rvnsyncpoint.Hardware.Ends.{shown-none}
use rvnsyncpoint.Hardware.Cursor.{
  Command, read_next, return_to, observed, Place, behind, forward, expected,
}
use rvnsyncpoint.Hardware.Cursor.Places.{
  IsBehind, IsPlaced, AreMarks, next-forward, next-AreMarks, jump-IsPlaced, placed-shown,
}

module _ (bytes : List ℕ) (accesses : List HardwareAccess) where
  module _ (fits : length bytes < 2 ^ 63) where
    observed-expected :
        (commands : List Command) (place : Place) (s : HardwareFile) (marks : List (ℕ × ℕ))
        (indices : List ℕ)
        → IsPlaced bytes accesses place s
        → AreMarks bytes accesses marks indices
        → observed commands s marks ≡ expected accesses commands place indices
    observed-expected [] place s marks indices h m = refl
    observed-expected (read_next ∷ commands) place s marks indices h m =
        let h' = next-forward bytes accesses fits place s h in
        let more =
          observed-expected commands _ (next s) _ _ h'
            (next-AreMarks bytes accesses fits place s marks indices h m) in
        cc (placed-shown bytes accesses (forward accesses place) (next s) h', more)
    observed-expected (return_to k ∷ commands) place s marks indices h m =
        let h' = jump-IsPlaced bytes accesses k marks indices place s m h in
        let more = observed-expected commands _ _ marks indices h' m in
        cc (placed-shown bytes accesses _ _ h', more)

-- A new reader that loads a file of recorded accesses, with a header of any version and below
-- 2 ^ 63 bytes, behaves as the cursor does: for every sequence of calls of `next` and of
-- `advance_to` with a position that was kept behind a valid access, it shows the same accesses.
pub hardware_file-refines :
    (files : Files) (unset : Unset) (file_name version : ℕ) (accesses : List HardwareAccess)
    (commands : List Command)
    → files file_name ≡ some (file_header version ++ accesses_bytes accesses)
    → version < 2 ^ 32
    → All IsRecorded accesses
    → length (file_header version ++ accesses_bytes accesses) < 2 ^ 63
    → observed commands (load files file_name (hardware_file unset)).1 []
      ≡ expected accesses commands (behind 0) []
unfolding hardware_file
hardware_file-refines files unset file_name version accesses commands found v w fits =
    let bytes : List ℕ = file_header version ++ accesses_bytes accesses in
    let s : HardwareFile = loaded (hardware_file unset) version (accesses_bytes accesses) in
    let start : IsBehind bytes accesses 0 (file_header version) accesses s = record {
      contents = refl;
      file = refl;
      position = refl;
      inside = omega arith;
      recorded = w;
      remaining = λ j. ap (get_elem? accesses) (omega arith);
    } in
    ap (λ r. observed commands r.1 [])
      (load-written files file_name (hardware_file unset) version (accesses_bytes accesses) found v)
    ∙ observed-expected bytes accesses fits commands (behind 0) s [] []
        ((file_header version, accesses, start), shown-none s refl) tt
