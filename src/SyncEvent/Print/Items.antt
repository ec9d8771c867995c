-- ===== src/SyncEvent/Print/Items.antt =====
-- What an event shows: the items that its printed text is read as.
use rvnsyncpoint.Base.{ℕ, Bool, not, ◌||◌, List, [], ◌∷◌, ◌++◌, ◌==◌, if◌then◌else◌}
use rvnsyncpoint.Ostream.{codes}
use rvnsyncpoint.SyncEvent.{SyncEvent, Context}

-- A context by the names of its registers.
abbrev pub context_items : Context → List (List ℕ × ℕ)
context_items c =
    (codes "RAX", c.rax)
    ∷ (codes "RBX", c.rbx)
    ∷ (codes "RCX", c.rcx)
    ∷ (codes "RDX", c.rdx)
    ∷ (codes "RSI", c.rsi)
    ∷ (codes "RDI", c.rdi)
    ∷ (codes "RBP", c.rbp)
    ∷ (codes "RSP", c.rsp)
    ∷ (codes "R8", c.r8)
    ∷ (codes "R9", c.r9)
    ∷ (codes "R10", c.r10)
    ∷ (codes "R11", c.r11)
    ∷ (codes "R12", c.r12)
    ∷ (codes "R13", c.r13)
    ∷ (codes "R14", c.r14)
    ∷ (codes "R15", c.r15)
    ∷ (codes "CR0", c.cr0)
    ∷ (codes "CR2", c.cr2)
    ∷ (codes "CR3", c.cr3)
    ∷ (codes "CR4", c.cr4)
    ∷ (codes "FSW", c.fpu_sw)
    ∷ (codes "FCW", c.fpu_cw)
    ∷ (codes "FTAGS", c.fpu_tags)
    ∷ (codes "TSC", c.tsc)
    ∷ []

-- The items of the first list whose values are others in the second, or all where the second is
-- not to be looked at.
abbrev pub differing : Bool → List (List ℕ × ℕ) → List (List ℕ × ℕ) → List (List ℕ × ℕ)
differing ignored [] olds = []
differing ignored (new ∷ news) [] = []
differing ignored ((word, n) ∷ news) ((_, m) ∷ olds) =
    let rest = differing ignored news olds in
    if ignored || not (n == m) then (word, n) ∷ rest else rest

-- What an event shows: the context that it starts in, where it is known, and the registers that it
-- changes, or the whole new context where the first one is not known.
abbrev pub start_items : SyncEvent → List (List ℕ × ℕ)
start_items event =
    if event.is_first_event_context_unknown
    then []
    else (codes "RIP", event.start_rip)
      ∷ (codes "RFL", event.rflags)
      ∷ context_items event.start_context

abbrev pub changed_items : SyncEvent → List (List ℕ × ℕ)
changed_items event =
    if event.is_last_event
    then []
    else differing event.is_first_event_context_unknown (context_items event.new_context)
        (context_items event.start_context)

-- An event that is not valid shows nothing.
abbrev pub event_items : SyncEvent → List (List ℕ × ℕ)
event_items event = if not event.is_valid then [] else start_items event ++ changed_items event
