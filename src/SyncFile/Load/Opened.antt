-- ===== src/SyncFile/Load/Opened.antt =====
-- The reader behind a load that has succeeded.
use rvnsyncpoint.Base.{
  ℕ, ◌+◌, ◌-◌, ◌/◌, ◌%◌, ◌^◌, ◌≤◌, ◌<◌, ◌≡◌, ◌≢◌, refl, ap, ◌∙◌, inl, inr, true, some, List, length,
  ◌==◌, Option-cases, Bool-cases, arith,
}
use rvnsyncpoint.Outcome.{ok}
use rvnsyncpoint.Stream.{StreamableFile, read_uint}
use rvnsyncpoint.Stream
use rvnsyncpoint.Stream.Ifstream.{Files}
use rvnsyncpoint.Stream.Cursor.{at, value_at, load-at, load-missing, read_uint-value}
use rvnsyncpoint.SyncFile.State.{
  SyncFile, header_size, u64_mod, sync_point_magic, sync_point_file_version,
}
use rvnsyncpoint.SyncFile.Load.{load_data_file, load}
use rvnsyncpoint.SyncFile.Load.Result.{
  data_answer, loaded, opened_at, load-version, load_version-loaded,
}
use rvnsyncpoint.SyncFile.Points.Landing.{IsAt}

-- An accepted data file changes no other member.
load_data_file-ok :
    (files : Files) (name : ℕ) (s : SyncFile)
    → data_answer (files name) ≡ ok true
    → (f : StreamableFile) × (load_data_file files name s ≡ (ok true, record s { data_file = f }))
unfolding load_data_file
load_data_file-ok files name s h = elim (Option-cases (files name)) [
  | inl missing ↦ (
    Stream.close (Stream.load files name s.data_file),
    ground (arith, load-missing files name s.data_file missing),
  )
  | inr (bytes, e) ↦ (
    (read_uint 8 (at bytes 0)).1,
    ground (arith, load-at files name bytes s.data_file e, read_uint-value bytes 0 8),
  )
]

-- A file with a whole header and less than 2 ^ 63 bytes, with the right magic number, a known
-- version and a record size, and with a data file that is right or missing, is accepted; the reader
-- stands before the first record and has counted the records, and its current point is the one before.
pub load-IsAt :
    (files : Files) (file_name data_file_name : ℕ) (bytes : List ℕ) (s : SyncFile)
    → files file_name ≡ some bytes
    → header_size ≤ length bytes
    → length bytes < 2 ^ 63
    → value_at bytes 0 8 ≡ sync_point_magic
    → value_at bytes 8 4 ≤ sync_point_file_version
    → value_at bytes 16 4 ≢ 0
    → data_answer (files data_file_name) ≡ ok true
    → (s' : SyncFile) × (load files file_name data_file_name s ≡ (ok true, s'))
      × IsAt bytes (value_at bytes 8 4) (value_at bytes 16 4) 0 s'
      × (s'.sync_point_count ≡ (length bytes - header_size) / value_at bytes 16 4)
      × (s'.current ≡ s.current)
load-IsAt files file_name data_file_name bytes s found long fits magic v nz dump =
    let s1 = loaded bytes (opened_at bytes s) in
    let (f, e) = load_data_file-ok files data_file_name s1 dump in
    let start =
      load-version files file_name data_file_name s bytes found (omega arith) magic
      ∙ load_version-loaded files data_file_name bytes (opened_at bytes s) refl (omega arith) fits v
          nz in
    elim (Bool-cases (value_at bytes 8 4 == 0)) [
      | inl old ↦ (s1, start ∙ rw old, first s1 refl refl refl refl, counted, refl)
      | inr recent ↦ (
        record s1 { data_file = f },
        start ∙ rw recent e,
        first _ refl refl refl refl,
        counted,
        refl,
      )
    ]
  where
    first :
        (t : SyncFile)
        → t.version ≡ value_at bytes 8 4
        → t.record_size ≡ value_at bytes 16 4
        → t.file ≡ at bytes header_size
        → t.position ≡ 0
        → IsAt bytes (value_at bytes 8 4) (value_at bytes 16 4) 0 t
    first t a b c d = record {
      version = a;
      size = b;
      place = c ∙ ap (at bytes) (omega arith);
      position = d;
    }

    counted :
        (length bytes + u64_mod - header_size) % u64_mod / value_at bytes 16 4
        ≡ (length bytes - header_size) / value_at bytes 16 4
    counted = ap (λ n. n / value_at bytes 16 4) (omega arith)
