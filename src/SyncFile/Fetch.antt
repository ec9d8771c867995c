-- ===== src/SyncFile/Fetch.antt =====
-- `sync_file::fetch_new_event`.
pub mod Ends
pub mod Steps
pub mod Answer
pub mod Stops
pub mod Returns
use rvnsyncpoint.Base.{ℕ, zero, suc, Bool, true, false, not, ◌&&◌, ◌||◌, ◌++◌, ◌==◌, if◌then◌else◌}
use rvnsyncpoint.Outcome.{Error, ok, throws, crash, stuck}
use rvnsyncpoint.SyncPoint.{SyncPoint, is_interrupt, is_vmenter, is_vmexit, valid, is_equivalent}
use rvnsyncpoint.SyncPoint.Types.{
  vmx_exit_xcpt_or_nmi, vmx_exit_io_instr, vmx_exit_cpuid, vmx_exit_rdtsc, vmx_exit_rdtscp,
  vmx_exit_rdmsr, vmx_exit_mov_crx, vmx_exit_ept_misconfig, vmx_exit_hlt,
}
use rvnsyncpoint.SyncEvent.{Context, SyncEvent, sync_event, check_sanity}
use rvnsyncpoint.SyncFile.State.{SyncFile, Action, ◌>>=◌, ◌>>◌, pure, gets, throw, lift}
use rvnsyncpoint.SyncFile.Points.{Stack, next}

unfoldable pub point_context_to_event : SyncPoint → Context
point_context_to_event sp = record {
  rax = sp.rax;
  rbx = sp.rbx;
  rcx = sp.rcx;
  rdx = sp.rdx;
  rsi = sp.rsi;
  rdi = sp.rdi;
  rbp = sp.rbp;
  rsp = sp.rsp;
  r8 = sp.r8;
  r9 = sp.r9;
  r10 = sp.r10;
  r11 = sp.r11;
  r12 = sp.r12;
  r13 = sp.r13;
  r14 = sp.r14;
  r15 = sp.r15;
  cr0 = sp.cr0;
  cr2 = sp.cr2;
  cr3 = sp.cr3;
  cr4 = sp.cr4;
  fpu_sw = sp.fpu_sw;
  fpu_cw = sp.fpu_cw;
  fpu_tags = sp.fpu_tags;
  tsc = sp.tsc;
}

-- The first VM exit may be missing.
unfoldable pub first_vmexit_missing : SyncFile → Bool
first_vmexit_missing s = not (is_vmexit s.current) && s.position == 1

-- The search for the next VM exit, when the first one is not missing; `false` when the points end
-- before it.
unfoldable pub find_vmexit : Stack → ℕ → ℕ → Action Bool
find_vmexit stack rounds zero = λ s. (stuck, s)
find_vmexit stack rounds (suc left) =
    let rest : Action Bool = find_vmexit stack rounds left in
    do
      start ← gets (λ s. s.current)
      if is_vmexit start then pure true else do
        next stack rounds
        point ← gets (λ s. s.current)
        if not (valid point) then pure false else rest

-- What is known of an event at its VM exit, or where that one is missing.
unfoldable pub begin_event : Bool → SyncFile → SyncEvent
begin_event first_missing s =
    if first_missing
    then record sync_event {
      position = s.position;
      is_first_event_context_unknown = true;
      start_reason = vmx_exit_xcpt_or_nmi;
      is_instruction_emulation = true;
    }
    else record sync_event {
      position = s.position;
      start_context = point_context_to_event s.current;
      start_rip = s.current.rip;
      start_reason = s.current.type;
      blocks = sync_event.blocks ++ s.current.blocks;
    }

abbrev pub add_blocks : SyncEvent → SyncPoint → SyncEvent
add_blocks event p = record event { blocks = event.blocks ++ p.blocks }

-- The points have ended within the event.
abbrev pub last_event : SyncEvent → SyncEvent
last_event event = record event { is_last_event = true; is_valid = true }

-- The switch on the exit reason, for the kind and the address of the last point of the event.
unfoldable pub is_emulated : SyncEvent → SyncPoint → Bool
is_emulated event p =
    if event.start_reason == vmx_exit_io_instr
      || event.start_reason == vmx_exit_cpuid
      || event.start_reason == vmx_exit_rdtsc
      || event.start_reason == vmx_exit_rdtscp
      || event.start_reason == vmx_exit_rdmsr
      || event.start_reason == vmx_exit_mov_crx
      || event.start_reason == vmx_exit_ept_misconfig
    then true
    else if event.start_reason == vmx_exit_hlt
    then event.is_instruction_emulation
    else if not event.is_first_event_context_unknown && not (p.rip == event.start_rip)
    then true
    else event.is_instruction_emulation

-- The new context, from the last point of the event.
unfoldable pub complete_event : SyncEvent → SyncPoint → SyncEvent
unfolding is_emulated point_context_to_event
complete_event event p = record event {
  new_context = point_context_to_event p;
  rflags = p.rflags;
  is_instruction_emulation = is_emulated event p;
}

unfoldable pub finish_event : SyncEvent → Action SyncEvent
finish_event event = do
  point ← gets (λ s. s.current)
  position ← gets (λ s. s.position)
  let completed = complete_event event point
  if not (is_vmenter point)
      then throw (Error.exit_without_enter position)
      else do lift (check_sanity completed); pure (record completed { is_valid = true })

-- Behind the interrupt `interrupt_sp`: the VM entry, in the same context.
unfoldable pub after_interrupt : SyncPoint → SyncEvent → Action SyncEvent
after_interrupt interrupt_sp event = do
  point ← gets (λ s. s.current)
  position ← gets (λ s. s.position)
  if not (is_equivalent point interrupt_sp)
      then throw (Error.context_mismatch position)
      else finish_event (add_blocks event point)

abbrev pub with_interrupt : SyncEvent → SyncPoint → SyncEvent
with_interrupt event p = record event {
  has_interrupt = true;
  interrupt_vector = p.interrupt_vector;
  interrupt_rip = p.rip;
  fault_error_code = p.fault_error_code;
}

-- At the point behind an interrupt that was reported twice.
unfoldable pub behind_repeat : SyncPoint → SyncEvent → Action SyncEvent
behind_repeat interrupt_sp event = do
  point ← gets (λ s. s.current)
  if not (valid point) then pure (last_event event) else after_interrupt interrupt_sp event

-- At the point behind an interrupt: the same interrupt may be reported again.
unfoldable pub behind_interrupt : Stack → ℕ → SyncPoint → SyncEvent → Action SyncEvent
behind_interrupt stack rounds interrupt_sp event = do
  point ← gets (λ s. s.current)
  position ← gets (λ s. s.position)
  if not (valid point)
      then pure (last_event event)
      else if is_interrupt point
      then (if not (is_equivalent point interrupt_sp)
          then throw (Error.duplicated_interrupt position)
          else next stack rounds >> behind_repeat interrupt_sp event)
      else after_interrupt interrupt_sp event

-- At an interrupt.
unfoldable pub take_interrupt : Stack → ℕ → SyncEvent → Action SyncEvent
take_interrupt stack rounds event = do
  interrupt_sp ← gets (λ s. s.current)
  next stack rounds
  behind_interrupt stack rounds interrupt_sp event

-- At the point behind the VM exit, where there is one.
unfoldable pub continue_event : Stack → ℕ → SyncEvent → Action SyncEvent
continue_event stack rounds event = do
  point ← gets (λ s. s.current)
  if is_interrupt point
      then take_interrupt stack rounds (with_interrupt (add_blocks event point) point)
      else finish_event (add_blocks event point)

-- At the point behind the VM exit.
unfoldable pub behind_exit : Stack → ℕ → SyncEvent → Action SyncEvent
behind_exit stack rounds event = do
  point ← gets (λ s. s.current)
  if not (valid point) then pure (last_event event) else continue_event stack rounds event

-- From the VM exit, or from the first point if that exit is missing.
unfoldable pub read_event : Stack → ℕ → Bool → Action SyncEvent
read_event stack rounds first_missing = do
  event ← gets (begin_event first_missing)
  if not first_missing
      then next stack rounds >> behind_exit stack rounds event
      else continue_event stack rounds event

unfoldable pub fetch_new_event : Stack → ℕ → Action SyncEvent
fetch_new_event stack rounds = do
  first_missing ← gets first_vmexit_missing
  if first_missing then read_event stack rounds true else do
    found ← find_vmexit stack rounds rounds
    if found then read_event stack rounds false else pure sync_event
