-- ===== src/Dump/Devices.antt =====
-- bin/dump_io: the devices of a file, printed with hexadecimal numbers.
use rvnsyncpoint.Base.{ℕ, ◌+◌, ◌%◌, ◌^◌, Bool, List, [], ◌∷◌}
use rvnsyncpoint.Outcome.{Outcome, ok, throws, crash, stuck}
use rvnsyncpoint.Stream.Ifstream.{Files}
use rvnsyncpoint.Ostream.{
  Ostream, ostream, Printer, ◌>>◌, skip, write, str, number, endl, hex, showbase,
}
use rvnsyncpoint.Device.{Device, PortRange, MemoryRange}
use rvnsyncpoint.Device.File.{Devices, IoFile, io_file, load}

-- The sum of two numbers of 16 bits is an `int`, which it fits in.
unfoldable pub print_port_ranges : List PortRange → Printer
print_port_ranges [] = skip
print_port_ranges (port ∷ rest) =
    str "    "
    >> (number port.port
        >> (str "-"
            >> (number (port.port + port.length)
                >> (str ": " >> (write port.description >> (endl >> print_port_ranges rest))))))

-- That of two numbers of 64 bits wraps around.
unfoldable pub print_memory_ranges : List MemoryRange → Printer
print_memory_ranges [] = skip
print_memory_ranges (mem ∷ rest) =
    str "    "
    >> (number mem.physical_address
        >> (str "-"
            >> (number ((mem.physical_address + mem.length) % 2 ^ 64)
                >> (str ": " >> (write mem.description >> (endl >> print_memory_ranges rest))))))

-- A list of ranges has its title, if it is not empty.
abbrev print_ports : List PortRange → Printer
print_ports [] = skip
print_ports (port ∷ rest) = str "Port mappings:" >> (endl >> print_port_ranges (port ∷ rest))

abbrev print_memory : List MemoryRange → Printer
print_memory [] = skip
print_memory (mem ∷ rest) = str "Memory mappings:" >> (endl >> print_memory_ranges (mem ∷ rest))

unfoldable pub print_device : Device → Printer
print_device dev =
    write dev.name
    >> (str " - "
        >> (write dev.description
            >> (str "Id: "
                >> (number dev.id
                    >> (endl
                        >> (print_ports dev.port_ranges
                            >> (print_memory dev.memory_ranges >> endl)))))))

-- The loop over the map.
unfoldable pub print_devices : Devices → Printer
print_devices [] = skip
print_devices ((id, dev) ∷ rest) = print_device dev >> print_devices rest

-- Behind `load`, whose answer is not looked at.
abbrev pub devices_from : Outcome Bool × IoFile → Outcome Ostream
devices_from (ok _, s) = ok ((hex >> (showbase >> print_devices s.devices)) ostream)
devices_from (throws e, s) = throws e
devices_from (crash, s) = crash
devices_from (stuck, s) = stuck

-- `main` on the right number of arguments.
unfoldable pub dump_io : Files → ℕ → Bool → ℕ → Outcome Ostream
dump_io files limit unset_opened file_name =
    devices_from (load files limit file_name (io_file unset_opened))
