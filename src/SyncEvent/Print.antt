-- ===== src/SyncEvent/Print.antt =====
-- The printer of events, `operator<<` of src/sync_event.cpp.
pub mod Items
pub mod Reading
use Prim.Native.String.{String}
use rvnsyncpoint.Base.{ℕ, Bool, not, ◌||◌, List, [], ◌∷◌, ◌==◌, if◌then◌else◌}
use rvnsyncpoint.Ostream.{
  Printer, ◌>>◌, skip, str, number, endl, hex, dec, setfill, setw, field, fields,
}
use rvnsyncpoint.SyncPoint.Types.{sync_point_type_to_string}
use rvnsyncpoint.SyncEvent.{SyncEvent, Context}

-- The context behind the first two fields.
unfoldable pub context_columns : Context → List (String × ℕ × ℕ)
context_columns c =
    (" RAX=", 16, c.rax)
    ∷ (" RBX=", 16, c.rbx)
    ∷ (" RCX=", 16, c.rcx)
    ∷ (" RDX=", 16, c.rdx)
    ∷ (" RSI=", 16, c.rsi)
    ∷ (" RDI=", 16, c.rdi)
    ∷ (" RBP=", 16, c.rbp)
    ∷ (" RSP=", 16, c.rsp)
    ∷ (" R8=", 16, c.r8)
    ∷ (" R9=", 16, c.r9)
    ∷ (" R10=", 16, c.r10)
    ∷ (" R11=", 16, c.r11)
    ∷ (" R12=", 16, c.r12)
    ∷ (" R13=", 16, c.r13)
    ∷ (" R14=", 16, c.r14)
    ∷ (" R15=", 16, c.r15)
    ∷ (" CR0=", 16, c.cr0)
    ∷ (" CR2=", 16, c.cr2)
    ∷ (" CR3=", 16, c.cr3)
    ∷ (" CR4=", 16, c.cr4)
    ∷ (" FSW=", 4, c.fpu_sw)
    ∷ (" FCW=", 4, c.fpu_cw)
    ∷ (" FTAGS=", 2, c.fpu_tags)
    ∷ (" TSC=", 16, c.tsc)
    ∷ []

unfoldable pub print_start : SyncEvent → Printer
print_start event =
    if not event.is_first_event_context_unknown
    then field "RIP=" 16 event.start_rip
      >> (field " RFL=" 16 event.rflags >> fields (context_columns event.start_context))
    else str "First event with unknown VMExit: no input context"

-- Where the interrupt is taken.
unfoldable pub print_place : SyncEvent → Printer
print_place event =
    if event.is_first_event_context_unknown || not (event.interrupt_rip == event.start_rip)
    then str " at " >> (setw 16 >> number event.interrupt_rip)
    else str " now"

unfoldable pub print_interrupt : SyncEvent → Printer
print_interrupt event =
    if event.has_interrupt
    then str "Interrupt 0x"
      >> (setw 2
          >> (number event.interrupt_vector
              >> (setfill b'0'
                  >> (print_place event
                      >> (str " with code "
                          >> (setw 8 >> (number event.fault_error_code >> endl)))))))
    else skip

-- COMPARE_AND_DISPLAY of a register, by the field that prints it in each context: it is printed
-- where the start context is not known, or where it is another one.
abbrev pub compare_and_display : SyncEvent → List (String × ℕ × ℕ) → List (String × ℕ × ℕ) → Printer
compare_and_display event [] olds = skip
compare_and_display event (new ∷ news) [] = skip
compare_and_display event ((label, size, new) ∷ news) ((_, _, old) ∷ olds) =
    (if event.is_first_event_context_unknown || not (new == old)
      then field label size new
      else skip)
    >> compare_and_display event news olds

unfoldable pub print_changes : SyncEvent → Printer
print_changes event =
    if event.is_last_event
    then str "Is last!"
    else str "New context "
      >> (str (if event.is_instruction_emulation then "emulated" else "to check")
          >> (str " :"
              >> compare_and_display event (context_columns event.new_context)
                  (context_columns event.start_context)))

unfoldable pub print_valid : SyncEvent → Printer
print_valid event =
    str "Sync Event pos $"
    >> (number event.position
        >> (str " - "
            >> (str (sync_point_type_to_string event.start_reason)
                >> (endl
                    >> (hex
                        >> (setfill b'0'
                            >> (print_start event
                                >> (endl
                                    >> (print_interrupt event
                                        >> (print_changes event >> (endl >> dec)))))))))))

-- `operator<<`
unfoldable pub print_sync_event : SyncEvent → Printer
print_sync_event event =
    if not event.is_valid then str "Invalid event." >> endl else print_valid event
