-- ===== src/Stream/Ifstream.antt =====
-- std::ifstream in binary mode, as far as the readers use it. A file's contents do not change
-- while it is open, and no read fails in the middle of a file, so `badbit` stays clear.
use rvnsyncpoint.Base.{
  ℕ, ◌+◌, ◌-◌, ◌^◌, Bool, true, false, not, ◌&&◌, ◌||◌, Option, none, some, List, [], length, take,
  drop, ltb, leb, if◌then◌else◌,
}

-- The file system: the bytes of each file that can be opened. Names are numbers, for they are
-- only handed on.
abbrev pub Files : Type 0
Files = ℕ → Option (List ℕ)

pub record InStream : Type 0 where
  pub bytes : List ℕ
  pub is_open : Bool
  pub offset : ℕ
  pub badbit : Bool
  pub eofbit : Bool
  pub failbit : Bool

-- A stream with no file.
unfoldable pub closed : InStream
closed = record {
  bytes = [];
  is_open = false;
  offset = 0;
  badbit = false;
  eofbit = false;
  failbit = false;
}

unfoldable pub good : InStream → Bool
good s = not (s.badbit || (s.eofbit || s.failbit))

-- Closing a stream that has no file sets the fail bit.
unfoldable pub close : InStream → InStream
close s = record s { bytes = []; is_open = false; offset = 0; failbit = s.failbit || not s.is_open }

-- A successful `open` clears the state.
unfoldable pub open_file : Files → ℕ → InStream → InStream
open_file files name s = elim (files name) [
  | none ↦ record s { failbit = true }
  | some bytes ↦ record {
    bytes = bytes;
    is_open = true;
    offset = 0;
    badbit = false;
    eofbit = false;
    failbit = false;
  }
]

unfoldable pub clear : InStream → InStream
clear s = record s { badbit = false; eofbit = false; failbit = false }

-- `read` fails on a stream that is not good. A short read delivers what there is.
unfoldable pub read : ℕ → InStream → List ℕ × InStream
unfolding good
read n s =
    let got = take n (drop s.offset s.bytes) in
    if good s
    then (if ltb (length got) n
        then (got, record s { offset = s.offset + length got; eofbit = true; failbit = true })
        else (got, record s { offset = s.offset + n }))
    else ([], record s { failbit = true })

-- `seekg(pos)`; the argument is converted to a signed offset, and a negative one is refused. An
-- offset behind the end is not.
unfoldable pub seekg : ℕ → InStream → InStream
seekg target s =
    if not (s.badbit || s.failbit) && (s.is_open && ltb target (2 ^ 63))
    then record s { offset = target; eofbit = false }
    else record s { failbit = true; eofbit = false }

-- `seekg(-back, end)`, for the bit pattern `back` of an int64_t.
unfoldable pub seekg_from_end : ℕ → InStream → InStream
unfolding seekg
seekg_from_end back s =
    if leb back (2 ^ 63)
    then (if leb back (length s.bytes)
        then seekg (length s.bytes - back) s
        else record s { failbit = true; eofbit = false })
    else seekg (length s.bytes + (2 ^ 64 - back)) s

-- `tellg`, as the uint64_t that it is converted to: -1 is the largest.
unfoldable pub tellg : InStream → ℕ × InStream
unfolding good
tellg s =
    if good s
    then (if s.is_open then (s.offset, s) else (2 ^ 64 - 1, s))
    else (2 ^ 64 - 1, record s { failbit = true })
