-- ===== src/SyncFile/Blocks.antt =====
-- The memory blocks of the data file, read as `sync_file::next` reads them.
pub mod Ends
use mathlib.Core.Option
use rvnsyncpoint.Base.{
  ℕ, zero, suc, not, ◌&&◌, Option, none, some, List, [], ◌∷◌, length, ◌==◌, if◌then◌else◌,
}
use rvnsyncpoint.Stream
use rvnsyncpoint.Stream.{Read, read_u8, read_u32, read_u64, read_vector, ◌>>=◌, pure}
use rvnsyncpoint.SyncPoint.{SyncPointData, data_end}

-- The blocks up to the end marker. `none`: more rounds would be needed.
unfoldable pub read_blocks : ℕ → Read (Option (List SyncPointData))
unfolding read_vector
read_blocks zero = pure none
read_blocks (suc rounds) = do
  data_type ← read_u32
  let block = do
    offset ← read_u64
    bytes ← read_vector read_u8
    rest ← read_blocks rounds
    pure (
        Option.map (λ more. record { type = data_type; offset = offset; bytes = bytes } ∷ more)
          rest)
  if data_type == data_end then pure (some []) else block

-- A round that goes on has read a byte, so this many rounds are enough.
unfoldable pub read_data : Read (List SyncPointData)
read_data f =
    let (blocks, f') = read_blocks (suc (suc (length f.in_file.bytes))) f in
    (Option.get_or blocks [], f')

-- The blocks of a point whose record has `data_offset`.
unfoldable pub load_blocks : ℕ → Read (List SyncPointData)
load_blocks data_offset f =
    if not (data_offset == 0) && not f.eof then read_data (Stream.seek data_offset f) else ([], f)
