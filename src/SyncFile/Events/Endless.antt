-- ===== src/SyncFile/Events/Endless.antt =====
-- `current_event` at the last point of a file: where no VM exit follows, its loop never ends.
use rvnsyncpoint.Base.{
  ℕ, zero, suc, ◌-◌, ◌||◌, Bool, ◌+◌, ◌*◌, ◌%◌, ◌^◌, ◌<◌, ◌≡◌, refl, ap, ◌∙◌, true, false, not,
  ◌==◌, List, length, if◌then◌else◌, arith,
}
use rvnsyncpoint.Outcome.{Outcome, ok, stuck}
use rvnsyncpoint.SyncPoint.{is_vmexit}
use rvnsyncpoint.SyncEvent.{SyncEvent, sync_event}
use rvnsyncpoint.SyncFile.State.{
  header_size, modify, u64_mod, SyncFile, Action, ◌>>=◌, ◌>>◌, pure, bind-ok,
}
use rvnsyncpoint.SyncFile.Seek.{seek}
use rvnsyncpoint.SyncFile.Points.{Stack, read_point}
use rvnsyncpoint.SyncFile.Points.Rounds.{stride}
use rvnsyncpoint.SyncFile.Points.Landing.{IsAt}
use rvnsyncpoint.SyncFile.Events.{is_mergeable, is_repeated, merge_events, current_event}
use rvnsyncpoint.SyncFile.Events.Blank.{
  IsBlank, IsIdle, sync_event-IsIdle, blank_event, blank_event-IsIdle, not_first,
  fetch_new_event-blank, fetch_new_event-none,
}
use rvnsyncpoint.SyncFile.Fetch.{first_vmexit_missing, find_vmexit, read_event, fetch_new_event}

-- Two events of zeros without effect are combined.
IsIdle-is_mergeable : (event : SyncEvent) → IsIdle event → is_mergeable event ≡ true
unfolding is_mergeable
IsIdle-is_mergeable event h = rw (h.behind, h.no_interrupt, h.new, h.start_zeros) refl

IsIdle-is_repeated :
    (event event_next : SyncEvent)
    → IsIdle event
    → IsIdle event_next
    → is_repeated event event_next ≡ true
unfolding is_repeated
IsIdle-is_repeated event event_next h k = rw (h.new, k.start, h.rip, k.rip, h.not_emulated) refl

abbrev merged : SyncEvent → SyncEvent → SyncEvent
merged event event_next = record event_next { start_context = event.start_context }

merged-IsIdle :
    (event event_next : SyncEvent)
    → IsIdle event
    → IsIdle event_next
    → IsIdle (merged event event_next)
merged-IsIdle event event_next h k = record {
  behind = k.behind;
  no_interrupt = k.no_interrupt;
  not_emulated = k.not_emulated;
  rip = k.rip;
  new = k.new;
  start = h.start;
  start_zeros = h.start_zeros;
}

module _ (stack : Stack) (rounds : ℕ) where
  -- Behind the end the loop reads an event like the one before, however many rounds it is given.
  merge_events-endless :
      (left : ℕ) (event : SyncEvent) (s : SyncFile)
      → IsIdle event
      → IsBlank s
      → merge_events stack (suc rounds) left event s ≡ (stuck, s)
  unfolding merge_events
  merge_events-endless zero event s h b = refl
  merge_events-endless (suc left) event s h b =
      let rest : SyncEvent → Action SyncEvent = merge_events stack (suc rounds) left in
      let fetch : Action SyncEvent = fetch_new_event stack (suc rounds) in
      let back : SyncEvent → Action SyncEvent =
        λ e. seek stack (suc rounds) ((e.position + u64_mod - 1) % u64_mod) >> pure event in
      let step : SyncEvent → Action SyncEvent =
        λ e. if is_repeated event e then rest (merged event e) else back e in
      let event_next : SyncEvent = blank_event s in
      let idle : IsIdle event_next = blank_event-IsIdle s b in
      ap (λ m. (if not m then pure event else (fetch >>= step)) s) (IsIdle-is_mergeable event h)
      ∙ (bind-ok fetch step s event_next s (fetch_new_event-blank stack rounds s b)
          ∙ (ap (λ r. (if r then rest (merged event event_next) else back event_next) s)
                (IsIdle-is_repeated event event_next h idle)
              ∙ merge_events-endless left (merged event event_next) s
                  (merged-IsIdle event event_next h idle) b))

module _ (stack : Stack) (rounds : ℕ) where
  abbrev keep : SyncEvent → Action SyncEvent
  keep event = modify (λ s. record s { current_event = event }) >> pure event

  abbrev combine : SyncEvent → Action SyncEvent
  combine first = merge_events stack rounds rounds first >>= keep

  -- Without a kept event, what `current_event` answers starts with `fetch_new_event`.
  current_event-fetches :
      (s : SyncFile) (r : Outcome SyncEvent × SyncFile)
      → s.current_event.is_valid ≡ false
      → s.file.eof ≡ false
      → fetch_new_event stack rounds s ≡ r
      → current_event stack rounds s ≡ ((λ _. r) >>= combine) s
  unfolding current_event
  current_event-fetches s r h e f =
      ap (λ b. (if b then pure s.current_event else (fetch_new_event stack rounds >>= combine)) s)
        (none_kept s h e)
      ∙ ap (λ r. ((λ _. r) >>= combine) s) f
    where
      none_kept :
          (s : SyncFile)
          → s.current_event.is_valid ≡ false
          → s.file.eof ≡ false
          → s.current_event.is_valid || s.file.eof ≡ false
      none_kept s h e = ground arith

fetch_new_event-unrun :
    (stack : Stack) (s : SyncFile)
    → first_vmexit_missing s ≡ false
    → fetch_new_event stack 0 s ≡ (stuck, s)
unfolding fetch_new_event find_vmexit
fetch_new_event-unrun stack s there =
    let found_one : Bool → Action SyncEvent =
      λ found. if found then read_event stack 0 false else pure sync_event in
    ap (λ b. (if b then read_event stack 0 true else (find_vmexit stack 0 0 >>= found_one)) s) there

-- At the last record of a file of whole records, which is not the first one, is no VM exit and has
-- no event kept, `current_event` never ends, with any number of rounds: it reads an event of zeros
-- behind the end of the file and combines it with itself.
pub current_event-endless :
    (stack : Stack) (bytes : List ℕ) (v rs rounds n : ℕ) (s : SyncFile)
    → stride v rs ≡ rs
    → length bytes < 2 ^ 63
    → IsAt bytes v rs n s
    → length bytes ≡ header_size + rs * n
    → (n == 1) ≡ false
    → is_vmexit s.current ≡ false
    → s.current_event.is_valid ≡ false
    → (current_event stack rounds s).0 ≡ stuck
current_event-endless stack bytes v rs zero n s framed fits h l behind other no_event =
    let there = not_first s (ap (λ k. k == 1) h.position ∙ behind) in
    ap (λ r. r.0)
      (current_event-fetches stack 0 s (stuck, s) no_event (ap (λ f. f.eof) h.place)
        (fetch_new_event-unrun stack s there))
current_event-endless stack bytes v rs (suc rounds) n s framed fits h l behind other no_event =
    let s' : SyncFile = read_point stack s in
    let (fetched, blank) =
      fetch_new_event-none stack bytes v rs rounds n s framed fits h l behind other no_event in
    ap (λ r. r.0)
      (current_event-fetches stack (suc rounds) s (ok sync_event, s') no_event
        (ap (λ f. f.eof) h.place) fetched)
    ∙ ap (λ r. (((λ _. r) >>= keep stack (suc rounds)) s').0)
        (merge_events-endless stack rounds (suc rounds) sync_event s' sync_event-IsIdle blank)
