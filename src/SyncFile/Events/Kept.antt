-- ===== src/SyncFile/Events/Kept.antt =====
-- What `current_event` returns and keeps.
use rvnsyncpoint.Base.{
  ℕ, zero, suc, ◌+◌, ◌-◌, ◌%◌, ◌≡◌, refl, ◌⊎◌, true, not, ◌||◌, ◌==◌, if-both, if◌then◌else◌,
}
use rvnsyncpoint.Outcome.{ok}
use rvnsyncpoint.SyncEvent.{SyncEvent}
use rvnsyncpoint.SyncFile.State.{SyncFile, Action, ◌>>=◌, ◌>>◌, pure, modify, eof, u64_mod}
use rvnsyncpoint.SyncFile.Points.{Stack, next}
use rvnsyncpoint.SyncFile.Seek.{seek, place, rewind, mark_valid}
use rvnsyncpoint.SyncFile.Fetch.{fetch_new_event}
use rvnsyncpoint.SyncFile.Fetch.Ends.{Ends, ok-Ends, bind-Ends, next_then-Ends}
use rvnsyncpoint.SyncFile.Fetch.Answer.{FetchedFrom, fetch_new_event-Fetched}
use rvnsyncpoint.SyncFile.Events.{is_mergeable, is_repeated, merge_events, current_event}

-- A call that returns nothing.
abbrev pub Returns : Unit {0} → SyncFile → Type 0
Returns _ _ = Unit

pub seek-Ends :
    (stack : Stack) (rounds position : ℕ) (s : SyncFile)
    → Ends Returns (seek stack rounds position s)
unfolding seek
seek-Ends stack rounds position s =
    let landed : Action (Unit {0}) =
      modify (place position) >> (next stack rounds >> modify mark_valid) in
    let moved : Action (Unit {0}) = if position == 0 then modify rewind else landed in
    if-both (λ m. Ends Returns (m s)) (s.record_size == 0) (modify (λ s. record s { position = 0 }))
      moved (λ _. ok-Ends Returns tt (record s { position = 0 }) tt)
      (λ _.
        if-both (λ m. Ends Returns (m s)) (position == 0) (modify rewind) landed
          (λ _. ok-Ends Returns tt (rewind s) tt)
          (λ _.
            next_then-Ends Returns stack rounds (modify mark_valid) (place position s)
              (λ t. ok-Ends Returns tt (mark_valid t) tt)))

-- The same context at the start.
abbrev pub StartsAs : SyncEvent → SyncEvent → SyncFile → Type 0
StartsAs event merged s = merged.start_context ≡ event.start_context

-- Combining an event with those behind it keeps the context that it started in, however many they
-- are, and ends in a value or with an error of a malformed recording.
pub merge_events-StartsAs :
    (stack : Stack) (rounds left : ℕ) (event : SyncEvent) (s : SyncFile)
    → Ends (StartsAs event) (merge_events stack rounds left event s)
unfolding merge_events
merge_events-StartsAs stack rounds zero event s = unfold Ends in tt
merge_events-StartsAs stack rounds (suc left) event s =
    let rest : SyncEvent → Action SyncEvent = merge_events stack rounds left in
    let merged : SyncEvent → SyncEvent =
      λ event_next. record event_next { start_context = event.start_context } in
    let single : SyncEvent → Action SyncEvent = λ event_next.
      seek stack rounds ((event_next.position + u64_mod - 1) % u64_mod) >> pure event in
    let step : SyncEvent → Action SyncEvent = λ event_next.
      if is_repeated event event_next then rest (merged event_next) else single event_next in
    if-both (λ m. Ends (StartsAs event) (m s)) (not (is_mergeable event)) (pure event)
      (fetch_new_event stack rounds >>= step) (λ _. ok-Ends (StartsAs event) event s refl)
      (λ _.
        bind-Ends (FetchedFrom stack rounds s) (StartsAs event) (fetch_new_event stack rounds) step
          s (fetch_new_event-Fetched stack rounds s)
          (λ event_next t _.
            if-both (λ m. Ends (StartsAs event) (m t)) (is_repeated event event_next)
              (rest (merged event_next)) (single event_next)
              (λ _. merge_events-StartsAs stack rounds left (merged event_next) t)
              (λ _.
                bind-Ends Returns (StartsAs event)
                  (seek stack rounds ((event_next.position + u64_mod - 1) % u64_mod))
                  (λ _. pure event) t (seek-Ends stack rounds _ t)
                  (λ _ u _. ok-Ends (StartsAs event) event u refl))))

-- The event is the kept one and nothing has happened, or it is the one that `fetch_new_event` reads
-- first, combined with those behind it: it starts in the context in which that one starts.
abbrev IsFrom : Stack → ℕ → SyncFile → SyncEvent → SyncFile → Type 0
IsFrom stack rounds s event t =
    ((s.current_event.is_valid || s.file.eof ≡ true) × (event ≡ s.current_event) × (t ≡ s))
    ⊎ ((first : SyncEvent) × (u : SyncFile) × (fetch_new_event stack rounds s ≡ (ok first, u))
        × StartsAs first event t)

abbrev pub Kept : Stack → ℕ → SyncFile → SyncEvent → SyncFile → Type 0
Kept stack rounds s event t =
    (t.current_event ≡ event)
    × (event.is_valid ≡ true
        → (stack : Stack) (rounds : ℕ) → current_event stack rounds t ≡ (ok event, t))
    × IsFrom stack rounds s event t
