-- ===== src/Outfile.antt =====
-- The output stream of include/streamable_outfile.h and src/streamable_outfile.cpp, over a
-- std::ofstream in binary mode. A disk that fills up is not modelled: what a good stream with a
-- file writes is in the file.
pub mod Written
use rvnsyncpoint.Base.{
  ℕ, ◌%◌, ◌^◌, Bool, true, false, not, ◌||◌, List, [], ◌∷◌, ◌++◌, length, take, ◌==◌, if◌then◌else◌,
}
use rvnsyncpoint.Base.Bytes.{le_bytes}

-- `bytes` is what has been written to the file that is open.
pub record StreamableOutfile : Type 0 where
  pub bytes : List ℕ
  pub is_open : Bool
  pub badbit : Bool
  pub failbit : Bool

unfoldable pub streamable_outfile : StreamableOutfile
streamable_outfile = record { bytes = []; is_open = false; badbit = false; failbit = false }

-- Closing a stream that has no file sets the fail bit.
unfoldable pub close : StreamableOutfile → StreamableOutfile
close f = record f { bytes = []; is_open = false; failbit = f.failbit || not f.is_open }

-- `writable` says of a name whether its file can be opened for writing. A successful `open` clears
-- the state and empties the file.
unfoldable pub open_file : (ℕ → Bool) → ℕ → StreamableOutfile → StreamableOutfile
unfolding close
open_file writable name f =
    if writable name
    then record { bytes = []; is_open = true; badbit = false; failbit = false }
    else record (close f) { failbit = true }

-- `write_raw(const char*, unsigned int)`
unfoldable pub write_raw : List ℕ → StreamableOutfile → StreamableOutfile
write_raw bytes f =
    if f.badbit || f.failbit
    then record f { failbit = true }
    else if f.is_open
    then record f { bytes = f.bytes ++ bytes }
    else if length bytes == 0
    then f
    else record f { badbit = true }

-- A write takes the stream and returns it.
abbrev pub Write : Type 0
Write = StreamableOutfile → StreamableOutfile

infixl 5 ◌>>◌
abbrev pub ◌>>◌ : Write → Write → Write
(m >> k) f = k (m f)

-- `operator<<` for the unsigned integers: `n` is the size of the type in bytes.
unfoldable pub write_uint : ℕ → ℕ → Write
unfolding write_raw
write_uint n value = write_raw (le_bytes n value)

-- For `bool`, 0 or 1.
abbrev pub write_bool : Bool → Write
write_bool b = write_uint 1 (if b then 1 else 0)

abbrev pub write_u8 : ℕ → Write
write_u8 = write_uint 1

abbrev pub write_u16 : ℕ → Write
write_u16 = write_uint 2

abbrev pub write_u32 : ℕ → Write
write_u32 = write_uint 4

abbrev pub write_u64 : ℕ → Write
write_u64 = write_uint 8

-- The length is written in 64 bits, and handed on to `write_raw` in 32.
unfoldable pub write_string : List ℕ → Write
write_string text = write_u64 (length text) >> write_raw (take (length text % 2 ^ 32) text)

abbrev pub write_items : {A : Type 0} → (A → Write) → List A → Write
write_items item [] f = f
write_items item (x ∷ xs) f = write_items item xs (item x f)

unfoldable pub write_vector : {A : Type 0} → (A → Write) → List A → Write
unfolding write_uint
write_vector item xs = write_u64 (length xs) >> write_items item xs
