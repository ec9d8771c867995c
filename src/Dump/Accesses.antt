-- ===== src/Dump/Accesses.antt =====
-- What bin/dump_hardware writes of the accesses that it shows.
use rvnsyncpoint.Base.{ℕ, Bool, true, false, Option, none, some, List, [], ◌∷◌, ◌==◌, if◌then◌else◌}
use rvnsyncpoint.Outcome.{Outcome, ok, throws, crash, stuck}
use rvnsyncpoint.Stream.Ifstream.{Files}
use rvnsyncpoint.Ostream.{Ostream, ostream, Printer, ◌>>◌, skip, put, endl}
use rvnsyncpoint.Hardware.Access.{HardwareAccess}
use rvnsyncpoint.Hardware.File.{Unset}
use rvnsyncpoint.Hardware.Print.{print_access}
use rvnsyncpoint.Dump.Hardware.{dump_hardware}

-- The second argument: an `@` in front asks for the bytes themselves.
unfoldable pub display : List ℕ → Bool × List ℕ
display [] = (false, [])
display (c ∷ rest) = if c == b'@' then (true, rest) else (false, c ∷ rest)

unfoldable pub print_shown : Bool → HardwareAccess → Printer
print_shown binary_display access =
    if binary_display then put access.bytes else print_access access >> endl

unfoldable pub print_all : Bool → List HardwareAccess → Printer
print_all binary_display [] = skip
print_all binary_display (access ∷ rest) =
    print_shown binary_display access >> print_all binary_display rest

abbrev pub write_shown : Bool → Outcome (List HardwareAccess) → Outcome Ostream
write_shown binary_display (ok accesses) = ok (print_all binary_display accesses ostream)
write_shown binary_display (throws e) = throws e
write_shown binary_display crash = crash
write_shown binary_display stuck = stuck

-- What `main` has written where it ends, without and with a second argument. `std::stoul` reads the
-- number; an argument that it refuses is left out.
unfoldable pub dump_hardware_text :
    Files → Unset → ℕ → (List ℕ → ℕ) → ℕ → Option (List ℕ) → Outcome Ostream
dump_hardware_text files unset rounds stoul file_name none =
    write_shown false (dump_hardware files unset rounds file_name none)
dump_hardware_text files unset rounds stoul file_name (some arg) =
    let (binary_display, number) = display arg in
    write_shown binary_display (dump_hardware files unset rounds file_name (some (stoul number)))
