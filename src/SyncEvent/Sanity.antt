-- ===== src/SyncEvent/Sanity.antt =====
-- When `check_sanity` accepts an event.
use rvnsyncpoint.Base.{◌≡◌, ◌≤◌, ◌↔◌, ◌⊎◌, true, false, arith}
use rvnsyncpoint.Outcome.{ok}
use rvnsyncpoint.SyncEvent.{SyncEvent, check_sanity}

-- What an event with an interrupt on a known context has to satisfy.
pub record IsSane (e : SyncEvent) : Type 0 where
  pub not_combined : e.is_instruction_emulation ≡ true → e.start_rip ≡ e.interrupt_rip → ⊥
  pub page_fault : (e.new_context.cr2 ≡ e.start_context.cr2) ⊎ (e.interrupt_vector ≡ 0x0e)
  pub fault_at_start : (0x20 ≤ e.interrupt_vector) ⊎ (e.start_rip ≡ e.interrupt_rip)

-- An event passes exactly when its context is unknown, it has no interrupt, or it is sane: an
-- emulated instruction is not interrupted at its start, CR2 changes only under a page fault, and a
-- CPU fault is raised at the start.
pub check_sanity_iff :
    (e : SyncEvent)
    → (check_sanity e ≡ ok tt)
      ↔ ((e.is_first_event_context_unknown ≡ true) ⊎ ((e.has_interrupt ≡ false) ⊎ IsSane e))
unfolding check_sanity
check_sanity_iff e = ground arith
