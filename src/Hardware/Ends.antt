-- ===== src/Hardware/Ends.antt =====
-- The end of a file of accesses, and what the reader shows.
use rvnsyncpoint.Base.{
  ℕ, ◌+◌, not, ◌≡◌, refl, ap, ◌∙◌, true, Option, none, some, List, length, if◌then◌else◌, arith,
}
use rvnsyncpoint.Stream
use rvnsyncpoint.Stream.{StreamableFile, read_vector, read_items}
use rvnsyncpoint.Stream.Cursor.{at, at_end, slice, read_uint-short, read_uint-eof}
use rvnsyncpoint.Hardware.Access.{HardwareAccess, valid, read_access}
use rvnsyncpoint.Hardware.File.{HardwareFile, next}
use rvnsyncpoint.Hardware.Replay.{IsRecorded, behind, next-at}

-- Where a read has met the end of the file.
abbrev pub IsPast : List ℕ → HardwareFile → Type 0
IsPast bytes s = (q : ℕ) × (s.file ≡ at_end bytes q)

-- Behind the last access the stream meets its end, and every read after that leaves it there.
read_access-ended :
    (bytes : List ℕ)
    → (read_access (at bytes (length bytes))).1
      ≡ at_end bytes (length bytes + length (slice bytes (length bytes) 8))
unfolding read_access read_vector read_items
read_access-ended bytes =
    let q : ℕ = length bytes + length (slice bytes (length bytes) 8) in
    rw (read_uint-short bytes (length bytes) 8 (omega arith) (omega arith)) (
      let wide = read_uint-eof (at_end bytes q) 8 refl in
      rw (wide, wide, wide, read_uint-eof (at_end bytes q) 4 refl, wide) refl)

pub next-ended :
    (s : HardwareFile) (bytes : List ℕ) → s.file ≡ at bytes (length bytes) → IsPast bytes (next s)
next-ended s bytes h = (
  length bytes + length (slice bytes (length bytes) 8),
  ap (λ t. t.file) (next-at s bytes (length bytes) h) ∙ read_access-ended bytes,
)

pub next-over :
    (s : HardwareFile) (bytes : List ℕ)
    → IsPast bytes s
    → IsPast bytes (next s) × ((next s).current.tsc ≡ 0)
unfolding next Stream.pos
next-over s bytes (q, h) = ((q, ap (λ f. (next_on f).file) h), ap (λ f. (next_on f).current.tsc) h)
  where
    next_on : StreamableFile → HardwareFile
    next_on g =
        let (p, f) = Stream.pos g in
        if not f.eof
        then (let (access, f') = read_access f in behind s f' access p)
        else record s { file = f; current = record s.current { tsc = 0 }; last_read_position = p }

-- The access that the reader shows.
abbrev pub shown : HardwareFile → Option HardwareAccess
shown s = if valid s.current then some s.current else none

pub shown-none : (s : HardwareFile) → s.current.tsc ≡ 0 → shown s ≡ none
unfolding valid
shown-none s h = rw h refl

pub valid-recorded : (access : HardwareAccess) → IsRecorded access → valid access ≡ true
unfolding valid
valid-recorded access r = ground (arith, r.1)
