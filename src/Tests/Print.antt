-- ===== src/Tests/Print.antt =====
-- Printed points, events, accesses and devices.
use rvnsyncpoint.Base.{ℕ, ◌≡◌, refl, true, false, arith, List, [], ◌∷◌, ◌++◌, replicate}
use rvnsyncpoint.Base.Bytes.{le_value}
use rvnsyncpoint.Ostream.{ostream, codes, digits, number_text, number, write, put}
use rvnsyncpoint.SyncPoint.{SyncPointData, sync_point, is_interrupt, memory_logical}
use rvnsyncpoint.SyncPoint.Types.{interrupt, vmx_exit_ext_int, sync_point_type_to_string}
use rvnsyncpoint.SyncPoint.Print.{print_bytes, print_sync_point_data, print_head}
use rvnsyncpoint.SyncEvent.{SyncEvent, sync_event, context}
use rvnsyncpoint.SyncEvent.Print.{
  print_sync_event, print_place, print_interrupt, print_changes, context_columns,
}
use rvnsyncpoint.Hardware.Access.{HardwareAccess, has_type, to_uint64}
use rvnsyncpoint.Hardware.Print.{print_access, print_access_data}
use rvnsyncpoint.Dump.Print.{print_blocks, print_line}
use rvnsyncpoint.Dump.{data_line, dump_sync_points, dump_sync_events}
use rvnsyncpoint.Dump.Accesses.{display}
use rvnsyncpoint.Dump.Print.Reading.{IsRead, dump-IsRead}
use rvnsyncpoint.SyncEvent.Print.Items.{event_items, start_items}
use rvnsyncpoint.SyncEvent.Print.Reading.{print_sync_event-IsIdle}
use rvnsyncpoint.Ostream.Reader.{run}
use rvnsyncpoint.Ostream.Rows.{IsIdle}
use rvnsyncpoint.Tests.Inputs.{files, stack, unset}

-- The vector of an interrupt is filled up with a space, behind its `0x`.
interrupt_head :
    (print_head
      (record sync_point { type = interrupt; interrupt_vector = 14; fault_error_code = 2 })
      (record ostream { is_hex = true })).text
    ≡ replicate 33 b' ' ++ codes "Interrupt 0x e-00000002"
unfolding print_head is_interrupt number_text digits write number
interrupt_head = refl

named_head :
    (print_head (record sync_point { type = vmx_exit_ext_int }) ostream).text
    ≡ replicate 29 b' ' ++ codes "External interrupt"
unfolding print_head is_interrupt sync_point_type_to_string sync_point write
named_head = refl

-- A block of dumped memory leaves the stream at `hex`: of two time stamps of 16, the second one
-- is printed as hexadecimal.
abbrev block : SyncPointData
block = record { type = memory_logical; offset = 0x1f; bytes = 0xab ∷ 0x05 ∷ [] }

two_time_stamps :
    (print_line (data_line 16 []) (print_line (data_line 16 (block ∷ [])) ostream)).text
    ≡ codes "TSC=16\n LOGICAL:1f\n       0: ab  5 \nTSC=10\n"
unfolding print_line print_blocks print_sync_point_data print_bytes number_text digits write number
    put
two_time_stamps = refl

-- The base is written twice for the time stamp, and the zeros that fill up a value stand before it.
abbrev access : List ℕ → HardwareAccess
access bytes = record {
  tsc = 0x20;
  physical_address = 0xfee0;
  type = 5;
  device_id = 3;
  device_instance = 0;
  bytes = bytes;
}

printed_access :
    (print_access (access (0x11 ∷ 0 ∷ 0 ∷ 0 ∷ [])) ostream).text
    ≡ codes "TSC=0x0x20, MMIO write to 0xfee0 = 00000x11"
unfolding print_access print_access_data has_type to_uint64 number_text digits write number le_value
printed_access = refl

stripped_access :
    (print_access (access (replicate 33 0)) ostream).text
    ≡ codes "TSC=0x0x20, MMIO write to 0xfee0 = <stripped 33 bytes>"
unfolding print_access print_access_data has_type to_uint64 number_text digits write number
stripped_access = refl

-- An event that changes RAX and the time stamp, and whose interrupt comes later.
abbrev changing : SyncEvent
changing = record sync_event {
  is_valid = true;
  position = 3;
  start_rip = 0x1000;
  start_reason = 1;
  has_interrupt = true;
  interrupt_vector = 0xe1;
  interrupt_rip = 0x1008;
  new_context = record context { rax = 7; tsc = 0x99 };
}

printed_changes :
    (print_interrupt changing
      (print_changes changing (record ostream { is_hex = true; fill_char = b'0' }))).text
    ≡ codes
        "New context to check : RAX=0000000000000007 TSC=0000000000000099Interrupt 0xe1 at 0000000000001008 with code 00000000\n"
unfolding print_interrupt print_place print_changes context_columns sync_event context number_text
    digits write number put
printed_changes = refl

print_sync_event-IsIdle_example :
    IsIdle ([] ++ event_items changing) (print_sync_event changing ostream)
unfolding run
print_sync_event-IsIdle_example =
    print_sync_event-IsIdle changing [] ostream
      (record { reads = ([], refl); bare = refl; fill = λ e. absurd (omega arith) })

-- The event shows its context, and the two registers that it changes.
changing_items :
    event_items changing ≡ start_items changing ++ ((codes "RAX", 7) ∷ (codes "TSC", 0x99) ∷ [])
unfolding sync_event context
changing_items = refl

dump-IsRead_example :
    IsRead (dump_sync_points files 0 stack unset 9 9 1)
    × IsRead (dump_sync_events files 0 stack unset 9 9 1)
dump-IsRead_example = dump-IsRead files 0 stack unset 9 9 1

-- The second argument of dump_hardware.
displays : (display (codes "@12") ≡ (true, codes "12")) × (display (codes "7") ≡ (false, codes "7"))
unfolding display
displays = (refl, refl)
