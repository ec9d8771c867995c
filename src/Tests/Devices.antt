-- ===== src/Tests/Devices.antt =====
-- Device files, and their theorems at concrete inputs.
use rvnsyncpoint.Base.{
  ℕ, ◌≡◌, refl, true, none, some, List, [], ◌∷◌, ◌++◌, map, ◌==◌, if◌then◌else◌, arith,
}
use rvnsyncpoint.Base.Bytes.{le_bytes, le_value}
use rvnsyncpoint.Outcome.{ok}
use rvnsyncpoint.Stream
use rvnsyncpoint.Stream.{read_uint, read_raw, streamable_file}
use rvnsyncpoint.Stream.Ifstream.{Files}
use rvnsyncpoint.Stream.Strings.{read_string, string_bytes}
use rvnsyncpoint.Device.{
  Device, read_port_range, read_memory_range, parse_items, parse_vector, read_device,
}
use rvnsyncpoint.Device.File.{
  io_file, io_file_magic, assign, read_devices, load_devices, load_magic, load,
}
use rvnsyncpoint.Device.Layout.{IsDevice, device_bytes, items_bytes}
use rvnsyncpoint.Device.Layout.Loading.{io_header, last_with, load-last_with}
use rvnsyncpoint.Ostream.{ostream, codes, digits, number, number_text, write, put}
use rvnsyncpoint.Dump.Devices.{print_device, print_port_ranges}
use rvnsyncpoint.Device.Devices.{lookup}

-- A device with a port range, as bytes.
abbrev coded_device : ℕ → List ℕ
coded_device id =
    string_bytes (100 ∷ [])
    ++ (string_bytes []
        ++ (le_bytes 8 id
            ++ (le_bytes 8 1
                ++ (string_bytes (101 ∷ 102 ∷ [])
                    ++ (le_bytes 2 0x60 ++ (le_bytes 2 4 ++ (le_bytes 4 0 ++ le_bytes 8 0)))))))

-- Two devices, and the first one again.
abbrev device_file : List ℕ
device_file =
    le_bytes 8 io_file_magic
    ++ (le_bytes 4 1 ++ (le_bytes 8 3 ++ (coded_device 9 ++ (coded_device 5 ++ coded_device 9))))

abbrev device_files : Files
device_files name = if name == 1 then some device_file else none

-- The map has the two identifiers, in order.
loaded_devices :
    let (r, s) = load device_files 100 1 (io_file true) in
    (r ≡ ok true) × (map (λ p. p.0) s.devices ≡ 5 ∷ 9 ∷ [])
unfolding le_bytes le_value read_uint read_raw streamable_file Stream.load read_string
    read_port_range read_memory_range parse_items parse_vector read_device io_file assign
    read_devices load_devices load_magic load
loaded_devices = (refl, refl)

abbrev device : ℕ → Device
device id = record {
  name = 100 ∷ [];
  description = [];
  id = id;
  port_ranges = [];
  memory_ranges = [];
}

-- A device with a range of ports.
abbrev keyboard : Device
keyboard = record {
  name = 107 ∷ 98 ∷ [];
  description = [];
  id = 9;
  port_ranges =
      record { description = 101 ∷ []; port = 0x60; length = 4; instance_number = 0 } ∷ [];
  memory_ranges = [];
}

keyboard-IsDevice : IsDevice 100 keyboard
keyboard-IsDevice = record {
  name = ((λ e. absurd (omega arith), (λ e. absurd (omega arith), tt)), omega arith);
  description = (tt, omega arith);
  id = omega arith;
  few_ports = omega arith;
  port_ranges = (
    record {
      description = ((λ e. absurd (omega arith), tt), omega arith);
      port = omega arith;
      length = omega arith;
      instance_number = omega arith;
    },
    tt,
  );
  few_memory = omega arith;
  memory_ranges = tt;
}

device-IsDevice : IsDevice 100 (device 9)
device-IsDevice = record {
  name = ((λ e. absurd (omega arith), tt), omega arith);
  description = (tt, omega arith);
  id = omega arith;
  few_ports = omega arith;
  port_ranges = tt;
  few_memory = omega arith;
  memory_ranges = tt;
}

abbrev written : List Device
written = device 9 ∷ keyboard ∷ []

abbrev written_files : Files
written_files name =
    if name == 1 then some (io_header 1 2 ++ items_bytes device_bytes written) else none

-- The second device has the identifier of the first one.
load-last_with_example :
    ((load written_files 100 1 (io_file true)).0 ≡ ok true)
    × ((id : ℕ)
        → lookup id (load written_files 100 1 (io_file true)).1.devices ≡ last_with id none written)
load-last_with_example =
    load-last_with written_files 100 1 1 written (io_file true) refl (omega arith) (omega arith)
      (omega arith) (device-IsDevice, (keyboard-IsDevice, tt))

last_written : last_with 9 none written ≡ some keyboard
last_written = refl

-- What dump_io writes of it.
dumped_device :
    (print_device keyboard (record ostream { is_hex = true; has_base = true })).text
    ≡ codes "kb - Id: 0x9\nPort mappings:\n    0x60-0x64: e\n\n"
unfolding print_device print_port_ranges number number_text digits write put
dumped_device = refl
