-- ===== src/Stream/Cursor.antt =====
-- The three states of an open stream (in the file, behind its end, after a refused seek), and what
-- the operations of Stream do in each.
use rvnsyncpoint.Base.{
  ℕ, zero, suc, ◌+◌, ◌-◌, ◌^◌, ◌≤◌, ◌<◌, ◌≡◌, refl, ap, ◌∙◌, true, false, none, some, List, [],
  length, take, drop, drop-of_le, length-take, length-drop, min, arith,
}
use rvnsyncpoint.Base.Bytes.{le_value, le_value-append_zeros}
use rvnsyncpoint.Stream.{StreamableFile, load, seek, seek_from_end, pos, read_uint}
use rvnsyncpoint.Stream.Ifstream.{Files}

-- In the file `bytes`, at the offset `p`, with nothing wrong.
abbrev pub at : List ℕ → ℕ → StreamableFile
at bytes p = record {
  in_file = record {
    bytes = bytes;
    is_open = true;
    offset = p;
    badbit = false;
    eofbit = false;
    failbit = false;
  };
  eof = false;
  opened = true;
}

-- A read has met the end.
abbrev pub at_end : List ℕ → ℕ → StreamableFile
at_end bytes p = record {
  in_file = record {
    bytes = bytes;
    is_open = true;
    offset = p;
    badbit = false;
    eofbit = true;
    failbit = true;
  };
  eof = true;
  opened = true;
}

-- A seek was refused: the fail bit is set and `eof()` is false.
abbrev pub failed : List ℕ → ℕ → StreamableFile
failed bytes p = record {
  in_file = record {
    bytes = bytes;
    is_open = true;
    offset = p;
    badbit = false;
    eofbit = false;
    failbit = true;
  };
  eof = false;
  opened = true;
}

-- The `n` bytes at the offset `p`, fewer at the end of the file.
abbrev pub slice : List ℕ → ℕ → ℕ → List ℕ
slice bytes p n = take n (drop p bytes)

-- The integer that a read of `n` bytes at `p` delivers; bytes behind the end count as zeros.
abbrev pub value_at : List ℕ → ℕ → ℕ → ℕ
value_at bytes p n = le_value (slice bytes p n)

pub length-slice : (bytes : List ℕ) (p n : ℕ) → length (slice bytes p n) ≡ min n (length bytes - p)
length-slice bytes p n = length-take n (drop p bytes) ∙ ap (min n) (length-drop p bytes)

pub read_uint-at :
    (bytes : List ℕ) (p n : ℕ)
    → p + n ≤ length bytes
    → read_uint n (at bytes p) ≡ (value_at bytes p n, at bytes (p + n))
unfolding read_uint
read_uint-at bytes p n h = ground (
  arith,
  length-slice bytes p n,
  le_value-append_zeros (slice bytes p n) (n - length (slice bytes p n)),
)

pub read_uint-short :
    (bytes : List ℕ) (p n : ℕ)
    → length bytes < p + n
    → 0 < n
    → read_uint n (at bytes p) ≡ (value_at bytes p n, at_end bytes (p + length (slice bytes p n)))
unfolding read_uint
read_uint-short bytes p n h k = ground (
  arith,
  length-slice bytes p n,
  le_value-append_zeros (slice bytes p n) (n - length (slice bytes p n)),
)

pub read_uint-eof : (f : StreamableFile) (n : ℕ) → f.eof ≡ true → read_uint n f ≡ (0, f)
unfolding read_uint le_value
read_uint-eof f n h = ground (arith, le_value-append_zeros [] n)

pub read_uint-failed :
    (bytes : List ℕ) (p n : ℕ) → read_uint n (failed bytes p) ≡ (0, failed bytes p)
unfolding read_uint le_value
read_uint-failed bytes p n = ground (arith, le_value-append_zeros [] n)

pub seek-at :
    (bytes : List ℕ) (f : StreamableFile) (target : ℕ)
    → f.in_file.is_open ≡ true
    → f.in_file.bytes ≡ bytes
    → f.opened ≡ true
    → target < 2 ^ 63
    → seek target f ≡ at bytes target
unfolding seek
seek-at bytes f target o b k h = ground arith

pub load-at :
    (files : Files) (name : ℕ) (bytes : List ℕ) (f : StreamableFile)
    → files name ≡ some bytes
    → load files name f ≡ at bytes 0
unfolding load
load-at files name bytes f h = ground arith

pub pos-at : (bytes : List ℕ) (p : ℕ) → pos (at bytes p) ≡ (p, at bytes p)
unfolding pos
pos-at bytes p = refl

pub pos-failed : (bytes : List ℕ) (p : ℕ) → pos (failed bytes p) ≡ (2 ^ 64 - 1, failed bytes p)
unfolding pos
pos-failed bytes p = refl

pub seek_from_end-at :
    (bytes : List ℕ) (f : StreamableFile) (back : ℕ)
    → f.in_file.is_open ≡ true
    → f.in_file.bytes ≡ bytes
    → f.opened ≡ true
    → length bytes < 2 ^ 63
    → back ≤ length bytes
    → seek_from_end back f ≡ at bytes (length bytes - back)
unfolding seek_from_end
seek_from_end-at bytes f back o b k h l = ground arith

pub seek_from_end-failed :
    (bytes : List ℕ) (f : StreamableFile) (back : ℕ)
    → f.in_file.is_open ≡ true
    → f.in_file.bytes ≡ bytes
    → f.opened ≡ true
    → length bytes < back
    → back ≤ 2 ^ 63
    → seek_from_end back f ≡ failed bytes f.in_file.offset
unfolding seek_from_end
seek_from_end-failed bytes f back o b k h l = ground arith

-- A file that cannot be opened.
pub load-missing :
    (files : Files) (name : ℕ) (f : StreamableFile)
    → files name ≡ none
    → ((load files name f).eof ≡ true) × ((load files name f).opened ≡ false)
unfolding load
load-missing files name f h = ground arith

-- What a read delivers does not depend on whether it meets the end.
pub read_uint-value : (bytes : List ℕ) (p n : ℕ) → (read_uint n (at bytes p)).0 ≡ value_at bytes p n
unfolding read_uint
read_uint-value bytes p n = ground (
  arith,
  length-slice bytes p n,
  le_value-append_zeros (slice bytes p n) (n - length (slice bytes p n)),
)

-- Behind the end there are only zeros.
pub value_at-past : (bytes : List ℕ) (n : ℕ) → value_at bytes (length bytes) n ≡ 0
unfolding le_value
value_at-past bytes zero = refl
value_at-past bytes (suc n) =
    ap (λ l. le_value (take (suc n) l)) (drop-of_le (length bytes) bytes (omega arith))
