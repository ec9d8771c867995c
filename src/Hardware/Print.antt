-- ===== src/Hardware/Print.antt =====
-- The printer of accesses, `operator<<` of src/hardware_access.cpp.
use Prim.Native.String.{String}
use rvnsyncpoint.Base.{ℕ, ◌*◌, List, [], ◌∷◌, length, leb, if◌then◌else◌}
use rvnsyncpoint.Ostream.{Printer, ◌>>◌, skip, str, number, hex, dec, showbase, setfill, setw}
use rvnsyncpoint.Hardware.Access.{HardwareAccess, is_pci, is_mmio, is_port, is_write, to_uint64}

abbrev pub type_text : HardwareAccess → String
type_text access =
    if is_pci access
    then "PCI"
    else if is_mmio access
    then "MMIO"
    else if is_port access
    then "Port"
    else "Unknown type"

-- The loop over the bytes.
unfoldable pub print_each : List ℕ → Printer
print_each [] = skip
print_each (ch ∷ rest) = setw 2 >> (number ch >> (str " " >> print_each rest))

unfoldable pub print_access_data : HardwareAccess → Printer
print_access_data access =
    if leb (length access.bytes) 8
    then showbase >> (setw (length access.bytes * 2) >> number (to_uint64 access))
    else if leb (length access.bytes) 32
    then print_each access.bytes
    else str "<stripped " >> (dec >> (number (length access.bytes) >> str " bytes>"))

-- `operator<<`; it leaves the stream with showbase.
unfoldable pub print_access : HardwareAccess → Printer
print_access access =
    showbase
    >> (hex
        >> (setfill b'0'
            >> (str "TSC=0x"
                >> (number access.tsc
                    >> (str ", "
                        >> (str (type_text access)
                            >> (str " "
                                >> (str (if is_write access then "write to " else "read from ")
                                    >> (showbase
                                        >> (hex
                                            >> (number access.physical_address
                                                >> (str " = "
                                                    >> (print_access_data access >> dec)))))))))))))
