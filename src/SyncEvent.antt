-- ===== src/SyncEvent.antt =====
-- Aggregated events, from include/sync_event.h and `check_sanity` of src/sync_event.cpp, compiled
-- without RVN_MACHINES_DEBUG_SYNC: its register checks are then empty.
pub mod Sanity
pub mod Values
pub mod Print
use rvnsyncpoint.Base.{ℕ, Bool, true, false, not, ◌&&◌, List, [], ◌==◌, ltb, if◌then◌else◌}
use rvnsyncpoint.Outcome.{Outcome, Error, ok, throws}
use rvnsyncpoint.SyncPoint.{SyncPoint, SyncPointData}
use rvnsyncpoint.SyncPoint.Types.{vmx_exit_xcpt_or_nmi}

-- `sync_event::context`
pub record Context : Type 0 where
  pub rax : ℕ
  pub rbx : ℕ
  pub rcx : ℕ
  pub rdx : ℕ
  pub rsi : ℕ
  pub rdi : ℕ
  pub rbp : ℕ
  pub rsp : ℕ
  pub r8 : ℕ
  pub r9 : ℕ
  pub r10 : ℕ
  pub r11 : ℕ
  pub r12 : ℕ
  pub r13 : ℕ
  pub r14 : ℕ
  pub r15 : ℕ
  pub cr0 : ℕ
  pub cr2 : ℕ
  pub cr3 : ℕ
  pub cr4 : ℕ
  pub fpu_sw : ℕ
  pub fpu_cw : ℕ
  pub fpu_tags : ℕ
  pub tsc : ℕ

-- A new context holds zeros.
unfoldable pub context : Context
context = record {
  rax = 0;
  rbx = 0;
  rcx = 0;
  rdx = 0;
  rsi = 0;
  rdi = 0;
  rbp = 0;
  rsp = 0;
  r8 = 0;
  r9 = 0;
  r10 = 0;
  r11 = 0;
  r12 = 0;
  r13 = 0;
  r14 = 0;
  r15 = 0;
  cr0 = 0;
  cr2 = 0;
  cr3 = 0;
  cr4 = 0;
  fpu_sw = 0;
  fpu_cw = 0;
  fpu_tags = 0;
  tsc = 0;
}

-- The floating point registers and the time stamp are left out.
unfoldable pub are_values_equivalent : Context → Context → Bool
are_values_equivalent c other =
    c.rax == other.rax
    && c.rbx == other.rbx
    && c.rcx == other.rcx
    && c.rdx == other.rdx
    && c.rsi == other.rsi
    && c.rdi == other.rdi
    && c.rbp == other.rbp
    && c.rsp == other.rsp
    && c.r8 == other.r8
    && c.r9 == other.r9
    && c.r10 == other.r10
    && c.r11 == other.r11
    && c.r12 == other.r12
    && c.r13 == other.r13
    && c.r14 == other.r14
    && c.r15 == other.r15
    && c.cr0 == other.cr0
    && c.cr2 == other.cr2
    && c.cr3 == other.cr3
    && c.cr4 == other.cr4

-- `blocks` is the event's `data`.
pub record SyncEvent : Type 0 where
  pub position : ℕ
  pub is_valid : Bool
  pub is_first_event_context_unknown : Bool
  pub start_rip : ℕ
  pub start_context : Context
  pub start_reason : ℕ
  pub rflags : ℕ
  pub is_last_event : Bool
  pub has_interrupt : Bool
  pub interrupt_vector : ℕ
  pub interrupt_rip : ℕ
  pub fault_error_code : ℕ
  pub is_instruction_emulation : Bool
  pub new_context : Context
  pub blocks : List SyncPointData

-- The default member initialisers.
unfoldable pub sync_event : SyncEvent
unfolding context
sync_event = record {
  position = 0;
  is_valid = false;
  is_first_event_context_unknown = false;
  start_rip = 0;
  start_context = context;
  start_reason = vmx_exit_xcpt_or_nmi;
  rflags = 0;
  is_last_event = false;
  has_interrupt = false;
  interrupt_vector = 0;
  interrupt_rip = 0;
  fault_error_code = 0;
  is_instruction_emulation = false;
  new_context = context;
  blocks = [];
}

unfoldable pub check_sanity : SyncEvent → Outcome (Unit {0})
check_sanity e =
    if not e.is_first_event_context_unknown && e.has_interrupt
    then (if e.is_instruction_emulation && e.start_rip == e.interrupt_rip
        then throws Error.immediate_interrupt
        else if not (e.new_context.cr2 == e.start_context.cr2) && not (e.interrupt_vector == 0x0e)
        then throws Error.cr2_change
        else if ltb e.interrupt_vector 0x20 && not (e.start_rip == e.interrupt_rip)
        then throws Error.late_fault
        else ok tt)
    else ok tt
