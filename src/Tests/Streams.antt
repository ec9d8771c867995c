-- ===== src/Tests/Streams.antt =====
-- The stream theorems at concrete inputs.
use rvnsyncpoint.Base.{true, [], ◌∷◌}
use rvnsyncpoint.Stream.{streamable_file}
use rvnsyncpoint.Stream.Flags.{
  IsCoherent, load_file, seek_to, read_bytes, close_file, run_all, run_all-IsCoherent,
  streamable_file-IsCoherent,
}
use rvnsyncpoint.Tests.Inputs.{files}

run_all-IsCoherent_example : IsCoherent (
    run_all
      (load_file files 1 ∷ seek_to 5000 ∷ read_bytes 4 ∷ close_file ∷ [])
      (streamable_file true))
run_all-IsCoherent_example =
    run_all-IsCoherent (load_file files 1 ∷ seek_to 5000 ∷ read_bytes 4 ∷ close_file ∷ [])
      (streamable_file true) (streamable_file-IsCoherent true)
