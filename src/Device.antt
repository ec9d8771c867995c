-- ===== src/Device.antt =====
-- Devices, include/device.h, and their file, include/io_file.h and src/io_file.cpp, with the tool
-- bin/dump_io.
pub mod File
pub mod Devices
pub mod Layout
use rvnsyncpoint.Base.{ℕ, zero, suc, true, false, List, [], ◌∷◌}
use rvnsyncpoint.Outcome.{Outcome, ok, throws, crash, stuck}
use rvnsyncpoint.Stream.{StreamableFile, read_u16, read_u32, read_u64}
use rvnsyncpoint.Stream.Strings.{Parse, ◌>>=◌, pure, of_read, read_string}

-- Strings are lists of characters.
pub record PortRange : Type 0 where
  pub description : List ℕ
  pub port : ℕ
  pub length : ℕ
  pub instance_number : ℕ

pub record MemoryRange : Type 0 where
  pub description : List ℕ
  pub physical_address : ℕ
  pub length : ℕ
  pub instance_number : ℕ

pub record Device : Type 0 where
  pub name : List ℕ
  pub description : List ℕ
  pub id : ℕ
  pub port_ranges : List PortRange
  pub memory_ranges : List MemoryRange

-- The loop of `operator>>` for vectors, over items whose reading may fail; the number is
-- `size - i`.
unfoldable pub parse_items : {A : Type 0} → Parse A → ℕ → Parse (List A)
parse_items item zero = pure []
parse_items item (suc left) =
    let more = parse_items item left in
    λ f. elim f.eof [ true ↦ (ok [], f) | false ↦ (do a ← item; rest ← more; pure (a ∷ rest)) f ]

unfoldable pub parse_vector : {A : Type 0} → Parse A → Parse (List A)
parse_vector item = do size ← of_read read_u64; parse_items item size

module _ (limit : ℕ) where
  -- `operator>>` of each, with room for strings below `limit`.
  unfoldable pub read_port_range : Parse PortRange
  read_port_range = do
    description ← read_string limit
    port ← of_read read_u16
    length ← of_read read_u16
    instance_number ← of_read read_u32
    pure (record {
      description = description;
      port = port;
      length = length;
      instance_number = instance_number;
    })

  unfoldable pub read_memory_range : Parse MemoryRange
  read_memory_range = do
    description ← read_string limit
    physical_address ← of_read read_u64
    length ← of_read read_u64
    instance_number ← of_read read_u32
    pure (record {
      description = description;
      physical_address = physical_address;
      length = length;
      instance_number = instance_number;
    })

  unfoldable pub read_device : Parse Device
  read_device = do
    name ← read_string limit
    description ← read_string limit
    id ← of_read read_u64
    port_ranges ← parse_vector read_port_range
    memory_ranges ← parse_vector read_memory_range
    pure (record {
      name = name;
      description = description;
      id = id;
      port_ranges = port_ranges;
      memory_ranges = memory_ranges;
    })
