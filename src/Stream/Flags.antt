-- ===== src/Stream/Flags.antt =====
-- The `eof_` flag of the stream class against the state of its std::ifstream.
use rvnsyncpoint.Base.{ℕ, ◌≡◌, Bool, true, false, not, ◌||◌, List, [], ◌∷◌, replicate, arith}
use rvnsyncpoint.Stream.{
  StreamableFile, streamable_file, load, close, seek, seek_from_end, pos, read_raw,
}
use rvnsyncpoint.Stream.Ifstream.{Files}

-- One call of a public operation, with its arguments.
pub data Op : Type 0 where
  load_file : Files → ℕ → Op
  close_file : Op
  seek_to back_from_end : ℕ → Op
  read_bytes : ℕ → Op
  tell : Op

-- The stream behind the call.
abbrev pub run : Op → StreamableFile → StreamableFile
run (load_file files name) f = load files name f
run close_file f = close f
run (seek_to target) f = seek target f
run (back_from_end back) f = seek_from_end back f
run (read_bytes n) f = (read_raw n f).1
run tell f = (pos f).1

-- `eof()` is what the stream's own state says, and the stream fails behind its end.
pub record IsCoherent (f : StreamableFile) : Type 0 where
  pub no_error : f.in_file.badbit ≡ false
  pub flag : f.eof ≡ (f.in_file.eofbit || not f.in_file.is_open)
  pub fails : f.in_file.eofbit ≡ true → f.in_file.failbit ≡ true

pub streamable_file-IsCoherent : (unset : Bool) → IsCoherent (streamable_file unset)
unfolding streamable_file
streamable_file-IsCoherent unset = ground arith

pub run-IsCoherent : (op : Op) (f : StreamableFile) → IsCoherent f → IsCoherent (run op f)
unfolding load close seek seek_from_end read_raw pos
run-IsCoherent (load_file files name) f h = ground arith
run-IsCoherent close_file f h = ground arith
run-IsCoherent (seek_to target) f h = ground arith
run-IsCoherent (back_from_end back) f h = ground arith
run-IsCoherent (read_bytes n) f h = ground arith
run-IsCoherent tell f h = ground arith

abbrev pub run_all : List Op → StreamableFile → StreamableFile
run_all [] f = f
run_all (op ∷ ops) f = run_all ops (run op f)

-- Any calls on a stream that is coherent, as a new one is, leave it coherent: `eof()` is true exactly
-- when no file is open or a read has met the end of it, and the fail bit is set at the end.
pub run_all-IsCoherent :
    (ops : List Op) (f : StreamableFile) → IsCoherent f → IsCoherent (run_all ops f)
run_all-IsCoherent [] f h = h
run_all-IsCoherent (op ∷ ops) f h = run_all-IsCoherent ops (run op f) (run-IsCoherent op f h)

-- At the end every read is zeros, and changes nothing.
pub read_raw-eof : (f : StreamableFile) (n : ℕ) → f.eof ≡ true → read_raw n f ≡ (replicate n 0, f)
unfolding read_raw
read_raw-eof f n h = ground arith
