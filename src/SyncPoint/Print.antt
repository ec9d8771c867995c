-- ===== src/SyncPoint/Print.antt =====
-- The printers of points and of blocks of dumped memory, `operator<<` of src/sync_point.cpp.
pub mod Reading
use Prim.Native.Nat.{bit_and}
use Prim.Native.String.{String}
use rvnsyncpoint.Base.{ℕ, ◌+◌, ◌%◌, not, List, [], ◌∷◌, ◌==◌, if◌then◌else◌}
use rvnsyncpoint.Ostream.{Printer, ◌>>◌, skip, str, char, number, hex, dec, setfill, setw, fields}
use rvnsyncpoint.SyncPoint.{SyncPoint, SyncPointData, is_interrupt, memory_logical, memory_physical}
use rvnsyncpoint.SyncPoint.Types.{sync_point_type_to_string}

-- The loop over the bytes, from the number `i` on.
unfoldable pub print_bytes : ℕ → List ℕ → Printer
print_bytes i [] = skip
print_bytes i (d ∷ rest) =
    (if i % 0x10 == 0
      then (if not (i == 0) then char 10 else skip) >> (setw 8 >> (number i >> str ": "))
      else skip)
    >> (setw 2 >> (number (bit_and d 0xff) >> (char b' ' >> print_bytes (i + 1) rest)))

abbrev pub data_type_text : ℕ → String
data_type_text type =
    if type == memory_logical
    then "LOGICAL:"
    else if type == memory_physical
    then "PHYSCAL:"
    else "DATAEND:"

-- `operator<<` of a block; it leaves the stream at `hex`.
unfoldable pub print_sync_point_data : SyncPointData → Printer
unfolding print_bytes
print_sync_point_data block =
    hex
    >> (str (data_type_text block.type)
        >> (number block.offset >> (char 10 >> print_bytes 0 block.bytes)))

-- The first column: the vector and the error code of an interrupt, or the name of the point's kind.
unfoldable pub print_head : SyncPoint → Printer
print_head point =
    if is_interrupt point
    then setfill b' '
      >> (setw 45
          >> (str "Interrupt 0x"
              >> (setw 2
                  >> (number point.interrupt_vector
                      >> (setfill b'0'
                          >> (str "-" >> (setw 8 >> number point.fault_error_code)))))))
    else setfill b' ' >> (setw 47 >> (str (sync_point_type_to_string point.type) >> setfill b'0'))

-- The registers, each with its label and width.
unfoldable pub columns : SyncPoint → List (String × ℕ × ℕ)
columns point =
    (" RIP=", 16, point.rip)
    ∷ (" RFL=", 16, point.rflags)
    ∷ (" RAX=", 16, point.rax)
    ∷ (" RBX=", 16, point.rbx)
    ∷ (" RCX=", 16, point.rcx)
    ∷ (" RDX=", 16, point.rdx)
    ∷ (" RSI=", 16, point.rsi)
    ∷ (" RDI=", 16, point.rdi)
    ∷ (" RBP=", 16, point.rbp)
    ∷ (" RSP=", 16, point.rsp)
    ∷ (" R8=", 16, point.r8)
    ∷ (" R9=", 16, point.r9)
    ∷ (" R10=", 16, point.r10)
    ∷ (" R11=", 16, point.r11)
    ∷ (" R12=", 16, point.r12)
    ∷ (" R13=", 16, point.r13)
    ∷ (" R14=", 16, point.r14)
    ∷ (" R15=", 16, point.r15)
    ∷ (" CR2=", 16, point.cr2)
    ∷ (" CR3=", 16, point.cr3)
    ∷ (" FSW=", 4, point.fpu_sw)
    ∷ (" FCW=", 4, point.fpu_cw)
    ∷ (" FTAGS=", 2, point.fpu_tags)
    ∷ (" TSC=", 16, point.tsc)
    ∷ []

-- `operator<<` of a point.
unfoldable pub print_sync_point : SyncPoint → Printer
print_sync_point point = hex >> (print_head point >> (fields (columns point) >> dec))
