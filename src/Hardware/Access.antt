-- ===== src/Hardware/Access.antt =====
-- `hardware_access` of include/hardware_access.h. Its `data` is `bytes` here.
use Prim.Native.Nat.{bit_and}
use rvnsyncpoint.Base.{ℕ, Bool, not, List, length, take, min, ◌==◌}
use rvnsyncpoint.Base.Bytes.{le_value}
use rvnsyncpoint.Stream.{Read, read_u8, read_u32, read_u64, read_vector, ◌>>=◌, pure}

-- `hardware_access_type`, a bit field.
abbrev pub write : ℕ
write = 0x01

abbrev pub pci : ℕ
pci = 0x02

abbrev pub mmio : ℕ
mmio = 0x04

abbrev pub port : ℕ
port = 0x08

pub record HardwareAccess : Type 0 where
  pub tsc : ℕ
  pub physical_address : ℕ
  pub type : ℕ
  pub device_id : ℕ
  pub device_instance : ℕ
  pub bytes : List ℕ

-- `data.size()`
abbrev pub data_length : HardwareAccess → ℕ
data_length access = length access.bytes

unfoldable pub has_type : ℕ → HardwareAccess → Bool
has_type checked_type access = bit_and access.type checked_type == checked_type

abbrev pub is_mmio : HardwareAccess → Bool
is_mmio = has_type mmio

abbrev pub is_pci : HardwareAccess → Bool
is_pci = has_type pci

abbrev pub is_port : HardwareAccess → Bool
is_port = has_type port

abbrev pub is_write : HardwareAccess → Bool
is_write = has_type write

-- The first eight bytes, copied over a zero.
unfoldable pub to_uint64 : HardwareAccess → ℕ
to_uint64 access = le_value (take (min (length access.bytes) 8) access.bytes)

unfoldable pub valid : HardwareAccess → Bool
valid access = not (access.tsc == 0)

-- `operator>>`. It sets every member.
unfoldable pub read_access : Read HardwareAccess
unfolding read_vector
read_access = do
  tsc ← read_u64
  physical_address ← read_u64
  type ← read_u64
  device_id ← read_u64
  device_instance ← read_u32
  bytes ← read_vector read_u8
  pure (record {
    tsc = tsc;
    physical_address = physical_address;
    type = type;
    device_id = device_id;
    device_instance = device_instance;
    bytes = bytes;
  })
