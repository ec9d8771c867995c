-- ===== src/SyncFile/Load/Result.antt =====
-- What `load` answers, and where it leaves the reader.
use rvnsyncpoint.Base.{
  ℕ, ◌+◌, ◌-◌, ◌/◌, ◌%◌, ◌^◌, ◌≤◌, ◌<◌, ◌≡◌, ◌≢◌, refl, ap, ◌∙◌, inl, inr, Bool, true, false, not,
  Option, none, some, List, [], ◌∷◌, length, ltb, ◌==◌, if◌then◌else◌, Option-cases, arith,
}
use native.Mathlib.Decide.{dec_le, ℕ_discrete}
use rvnsyncpoint.Outcome.{Outcome, Error, ok, throws, crash}
use rvnsyncpoint.Stream.Ifstream.{Files}
use rvnsyncpoint.Stream.Cursor.{
  at, value_at, read_uint-at, read_uint-short, load-at, load-missing, read_uint-value, seek-at,
  seek_from_end-at, pos-at,
}
use rvnsyncpoint.Stream.Fields.{read_fields, read_fields-short_from}
use rvnsyncpoint.SyncFile.State.{
  SyncFile, header_size, u64_mod, sync_point_magic, sync_point_data_magic, sync_point_file_version,
}
use rvnsyncpoint.SyncFile.Load.{count_points, load_data_file, load_version, load}

-- The answer for a data file: one that cannot be opened is no error.
abbrev pub data_answer : Option (List ℕ) → Outcome Bool
data_answer none = ok true
data_answer (some bytes) =
    let magic = value_at bytes 0 8 in
    if magic == sync_point_data_magic then ok true else throws (Error.bad_data_magic magic)

-- The answer for a file that has the right magic number.
abbrev pub version_answer : List ℕ → Option (List ℕ) → Outcome Bool
version_answer bytes dump =
    if ltb (length bytes) 20
    then ok false
    else if ltb sync_point_file_version (value_at bytes 8 4)
    then throws (Error.unhandled_version (value_at bytes 8 4))
    else if value_at bytes 16 4 == 0
    then crash
    else if value_at bytes 8 4 == 0
    then ok true
    else data_answer dump

abbrev pub answer : Option (List ℕ) → Option (List ℕ) → Outcome Bool
answer none dump = ok false
answer (some bytes) dump =
    if ltb (length bytes) 8
    then ok false
    else if not (value_at bytes 0 8 == sync_point_magic)
    then throws (Error.bad_magic (value_at bytes 0 8))
    else version_answer bytes dump

load_data_file-answer :
    (files : Files) (name : ℕ) (s : SyncFile)
    → (load_data_file files name s).0 ≡ data_answer (files name)
unfolding load_data_file
load_data_file-answer files name s = elim (Option-cases (files name)) [
  | inl missing ↦ ground (arith, load-missing files name s.data_file missing)
  | inr (bytes, e) ↦
      ground (arith, load-at files name bytes s.data_file e, read_uint-value bytes 0 8)
]

-- The state behind the header of a file that is accepted, before the data file is loaded.
abbrev pub loaded : List ℕ → SyncFile → SyncFile
loaded bytes s = record s {
  file = at bytes header_size;
  record_size = value_at bytes 16 4;
  version = value_at bytes 8 4;
  sync_point_count = (length bytes + u64_mod - header_size) % u64_mod / value_at bytes 16 4;
}

-- What is left to do there.
abbrev pub load_rest : Files → ℕ → List ℕ → SyncFile → Outcome Bool × SyncFile
load_rest files name bytes s =
    if value_at bytes 8 4 == 0 then (ok true, s) else load_data_file files name s

module _ (files : Files) (name : ℕ) (bytes : List ℕ) (s : SyncFile)
    (start : s.file ≡ at bytes 8) where
  load_version-short : length bytes < 20 → (load_version files name s).0 ≡ ok false
  unfolding load_version
  load_version-short h =
      let row : List ℕ = 4 ∷ 4 ∷ 4 ∷ [] in
      let (q, e) = read_fields-short_from row bytes 8 (omega arith) (omega arith) (omega arith) in
      ground (arith, ap (λ f. (read_fields row f).1.eof) start ∙ ap (λ f. f.eof) e)

  load_version-refused :
      20 ≤ length bytes
      → sync_point_file_version < value_at bytes 8 4
      → (load_version files name s).0 ≡ throws (Error.unhandled_version (value_at bytes 8 4))
  unfolding load_version
  load_version-refused h v = ground (
    arith,
    read_uint-at bytes 8 4 (omega arith),
    read_uint-at bytes 12 4 (omega arith),
    read_uint-at bytes 16 4 (omega arith),
  )

  load_version-crash :
      20 ≤ length bytes
      → value_at bytes 8 4 ≤ sync_point_file_version
      → value_at bytes 16 4 ≡ 0
      → (load_version files name s).0 ≡ crash
  unfolding load_version count_points
  load_version-crash h v z = ground (
    arith,
    read_uint-at bytes 8 4 (omega arith),
    read_uint-at bytes 12 4 (omega arith),
    read_uint-at bytes 16 4 (omega arith),
  )

  pub load_version-loaded :
      20 ≤ length bytes
      → length bytes < 2 ^ 63
      → value_at bytes 8 4 ≤ sync_point_file_version
      → value_at bytes 16 4 ≢ 0
      → load_version files name s ≡ load_rest files name bytes (loaded bytes s)
  unfolding load_version count_points
  load_version-loaded h fits v nz = ground (
    arith,
    read_uint-at bytes 8 4 (omega arith),
    read_uint-at bytes 12 4 (omega arith),
    read_uint-at bytes 16 4 (omega arith),
    seek_from_end-at bytes (at bytes 20) 0 refl refl refl fits (omega arith),
    pos-at bytes (length bytes - 0),
    seek-at bytes (at bytes (length bytes - 0)) header_size refl refl refl (omega arith),
  )

  load_version-answer :
      length bytes < 2 ^ 63 → (load_version files name s).0 ≡ version_answer bytes (files name)
  load_version-answer fits = elim (dec_le 20 (length bytes)) [
    | no short ↦ ground (arith, load_version-short (omega arith))
    | yes long ↦ elim (dec_le (value_at bytes 8 4) sync_point_file_version) [
      | no refused ↦ ground (arith, load_version-refused long (omega arith))
      | yes v ↦ elim (ℕ_discrete (value_at bytes 16 4) 0) [
        | yes z ↦ ground (arith, load_version-crash long v z)
        | no nz ↦ ground (
          arith,
          load_version-loaded long fits v nz,
          load_data_file-answer files name (loaded bytes s),
        )
      ]
    ]
  ]

-- The state in which `load` reads the version.
abbrev pub opened_at : List ℕ → SyncFile → SyncFile
opened_at bytes s = record s { file = at bytes 8; position = 0 }

module _ (files : Files) (file_name data_file_name : ℕ) (s : SyncFile) where
  load-unopened : files file_name ≡ none → (load files file_name data_file_name s).0 ≡ ok false
  unfolding load
  load-unopened h = ground (arith, load-missing files file_name s.file h)

  module _ (bytes : List ℕ) (found : files file_name ≡ some bytes) where
    load-short : length bytes < 8 → (load files file_name data_file_name s).0 ≡ ok false
    unfolding load
    load-short h =
        ground (arith, load-at files file_name bytes s.file found, read_uint-short bytes 0 8 h)

    load-bad_magic :
        8 ≤ length bytes
        → value_at bytes 0 8 ≢ sync_point_magic
        → (load files file_name data_file_name s).0 ≡ throws (Error.bad_magic (value_at bytes 0 8))
    unfolding load
    load-bad_magic h m =
        ground (arith, load-at files file_name bytes s.file found, read_uint-at bytes 0 8 h)

    pub load-version :
        8 ≤ length bytes
        → value_at bytes 0 8 ≡ sync_point_magic
        → load files file_name data_file_name s
          ≡ load_version files data_file_name (opened_at bytes s)
    unfolding load
    load-version h m =
        ground (arith, load-at files file_name bytes s.file found, read_uint-at bytes 0 8 h)

    load-found :
        length bytes < 2 ^ 63
        → (load files file_name data_file_name s).0 ≡ answer (some bytes) (files data_file_name)
    load-found fits = elim (dec_le 8 (length bytes)) [
      | no short ↦ ground (arith, load-short (omega arith))
      | yes long ↦ elim (ℕ_discrete (value_at bytes 0 8) sync_point_magic) [
        | no bad ↦ ground (arith, load-bad_magic long bad)
        | yes m ↦ ground (
          arith,
          load-version long m,
          load_version-answer files data_file_name bytes (opened_at bytes s) refl fits,
        )
      ]
    ]

-- `load` answers as the contents of the two files say, for every main file below 2 ^ 63 bytes:
-- `false` where it cannot be opened or ends before the end of the fields that are read, which are its
-- first 20 bytes; an exception for a wrong magic number, which is looked at first and when 8 bytes are there,
-- or a newer version; a crash for a record size of 0; and otherwise `true`, unless the data file of
-- a version that has one can be opened and has the wrong magic number, which is an exception. The
-- rest of the header of 1024 bytes need not be there.
pub load-answer :
    (files : Files) (file_name data_file_name : ℕ) (s : SyncFile)
    → ((bytes : List ℕ) → files file_name ≡ some bytes → length bytes < 2 ^ 63)
    → (load files file_name data_file_name s).0 ≡ answer (files file_name) (files data_file_name)
load-answer files file_name data_file_name s fits = elim (Option-cases (files file_name)) [
  | inl missing ↦ load-unopened files file_name data_file_name s missing ∙ rw missing
  | inr (bytes, found) ↦
      load-found files file_name data_file_name s bytes found (fits bytes found) ∙ rw found
]
