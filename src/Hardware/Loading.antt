-- ===== src/Hardware/Loading.antt =====
-- Loading a file of hardware accesses.
use rvnsyncpoint.Base.{
  append_assoc, ℕ, ◌^◌, ◌<◌, ◌≡◌, refl, ap, ◌∙◌, Bool, true, false, not, ◌||◌, some, List, [], ◌++◌,
  length, if◌then◌else◌, arith,
}
use rvnsyncpoint.Base.Bytes.{le_bytes}
use rvnsyncpoint.Outcome.{Outcome, ok}
use rvnsyncpoint.Stream
use rvnsyncpoint.Stream.{StreamableFile, read_u32, read_u64}
use rvnsyncpoint.Stream.Cursor.{at, load-at}
use rvnsyncpoint.Stream.Ifstream.{Files}
use rvnsyncpoint.Outfile.Written.{read_uint-written}
use rvnsyncpoint.Hardware.File.{HardwareFile, hardware_file_magic, load, load_header}

-- A file of hardware accesses: the header, and the accesses.
abbrev pub file_header : ℕ → List ℕ
file_header version = le_bytes 8 hardware_file_magic ++ le_bytes 4 version

-- The file behind its header.
abbrev pub loaded : HardwareFile → ℕ → List ℕ → HardwareFile
loaded s version rest = record s {
  file = at (file_header version ++ rest) (length (file_header version));
  position = 0;
  last_read_position = length (file_header version);
}

load_header-written :
    (s : HardwareFile) (version : ℕ) (rest : List ℕ)
    → version < 2 ^ 32
    → load_header (record s {
      file = at (le_bytes 8 hardware_file_magic ++ (le_bytes 4 version ++ rest)) 0;
      position = 0;
    })
      ≡ (ok true, loaded s version rest)
unfolding load_header Stream.pos
load_header-written s version rest h =
    let magic : List ℕ = le_bytes 8 hardware_file_magic in
    rw (read_uint-written [] (le_bytes 4 version ++ rest) 8 hardware_file_magic (omega arith))
      (rw (read_uint-written magic rest 4 version (omega arith)) refl)

-- A file with the right magic number and any version is loaded, and the reader stands at the first
-- access.
pub load-written :
    (files : Files) (name : ℕ) (s : HardwareFile) (version : ℕ) (rest : List ℕ)
    → files name ≡ some (file_header version ++ rest)
    → version < 2 ^ 32
    → load files name s ≡ (ok true, loaded s version rest)
unfolding load
load-written files name s version rest h v =
    let start : StreamableFile → Outcome Bool × HardwareFile = λ f.
      if f.eof || not f.opened
      then (ok false, record s { file = f; position = 0 })
      else load_header (record s { file = f; position = 0 }) in
    ap start (load-at files name (file_header version ++ rest) s.file h)
    ∙ (ap (λ l. load_header (record s { file = at l 0; position = 0 }))
          (append_assoc (le_bytes 8 hardware_file_magic) (le_bytes 4 version) rest)
        ∙ load_header-written s version rest v)
