-- ===== src/Stream.antt =====
-- The input stream of include/streamable_file.h and src/streamable_file.cpp, over the
-- std::ifstream of Stream/Ifstream.
pub mod Ifstream
pub mod Cursor
pub mod Fields
pub mod Flags
pub mod Strings
use rvnsyncpoint.Base.{
  ℕ, zero, suc, ◌+◌, ◌-◌, ◌%◌, ◌^◌, Bool, true, false, not, ◌||◌, Option, none, some, List, [], ◌∷◌,
  ◌++◌, length, replicate, if◌then◌else◌,
}
use rvnsyncpoint.Base.Bytes.{le_value}
use Ifstream.{InStream, Files}

-- `opened` is not set by the constructor: `unset_opened` is what the memory held.
pub record StreamableFile : Type 0 where
  pub in_file : InStream
  pub eof : Bool
  pub opened : Bool

unfoldable pub streamable_file : Bool → StreamableFile
unfolding Ifstream.closed
streamable_file unset_opened = record {
  in_file = Ifstream.closed;
  eof = true;
  opened = unset_opened;
}

-- The fail bit is not looked at.
unfoldable pub check_eof : StreamableFile → StreamableFile
check_eof f = record f { eof = f.in_file.badbit || (f.in_file.eofbit || not f.in_file.is_open) }

unfoldable pub load : Files → ℕ → StreamableFile → StreamableFile
unfolding check_eof Ifstream.open_file Ifstream.close Ifstream.closed
load files file_name f =
    let in_file = Ifstream.open_file files file_name (Ifstream.close f.in_file) in
    check_eof (record f { in_file = in_file; eof = false; opened = in_file.is_open })

unfoldable pub close : StreamableFile → StreamableFile
unfolding Ifstream.close
close f = record f { in_file = Ifstream.close f.in_file; eof = true; opened = false }

unfoldable pub seek : ℕ → StreamableFile → StreamableFile
unfolding check_eof Ifstream.clear Ifstream.seekg
seek target f =
    check_eof (record f { in_file = Ifstream.seekg target (Ifstream.clear f.in_file); eof = false })

-- The argument is the bit pattern of an int64_t, which the source negates. For the least one, whose
-- negation overflows and is undefined, the model lets it wrap around.
unfoldable pub seek_from_end : ℕ → StreamableFile → StreamableFile
unfolding check_eof Ifstream.clear Ifstream.seekg_from_end
seek_from_end back f =
    check_eof
      (record f { in_file = Ifstream.seekg_from_end back (Ifstream.clear f.in_file); eof = false })

-- A read takes the stream and returns a value and the stream behind it.
abbrev pub Read : Type 0 → Type 0
Read A = StreamableFile → A × StreamableFile

infixl 5 ◌>>=◌ ◌>>◌
abbrev pub ◌>>=◌ : {A B : Type 0} → Read A → (A → Read B) → Read B
◌>>=◌ m k f = let (a, f') = m f in k a f'

abbrev pub ◌>>◌ : {A B : Type 0} → Read A → Read B → Read B
m >> k = m >>= λ _. k

abbrev pub pure : {A : Type 0} → A → Read A
pure a f = (a, f)

-- `tellg` tests the stream first, which can set its fail bit.
unfoldable pub pos : Read ℕ
unfolding Ifstream.tellg
pos f = let (p, s) = Ifstream.tellg f.in_file in (p, record f { in_file = s })

-- `read_raw(char*, unsigned int)`: the buffer is cleared before the bytes are read into it.
unfoldable pub read_raw : ℕ → Read (List ℕ)
unfolding check_eof Ifstream.read
read_raw n f =
    if not f.eof
    then (let (got, s) = Ifstream.read n f.in_file in
        (got ++ replicate (n - length got) 0, check_eof (record f { in_file = s })))
    else (replicate n 0, f)

-- `operator>>` for the unsigned integers: `n` is the size of the type in bytes.
unfoldable pub read_uint : ℕ → Read ℕ
unfolding read_raw
read_uint n f = let (bytes, f') = read_raw n f in (le_value bytes, f')

-- For `bool`, the byte that stands for it.
abbrev pub read_bool : Read ℕ
read_bool = read_uint 1

abbrev pub read_u8 : Read ℕ
read_u8 = read_uint 1

abbrev pub read_u16 : Read ℕ
read_u16 = read_uint 2

abbrev pub read_u32 : Read ℕ
read_u32 = read_uint 4

abbrev pub read_u64 : Read ℕ
read_u64 = read_uint 8

-- The loop of `operator>>` for vectors; the number is `size - i`.
unfoldable pub read_items : {A : Type 0} → Read A → ℕ → Read (List A)
read_items item zero f = ([], f)
read_items item (suc left) f = elim f.eof [
  | true ↦ ([], f)
  | false ↦ let (a, f') = item f in let (rest, f'') = read_items item left f' in (a ∷ rest, f'')
]

unfoldable pub read_vector : {A : Type 0} → Read A → Read (List A)
unfolding read_items
read_vector item = do size ← read_u64; read_items item size
