-- ===== src/SyncFile/Fetch/Steps.antt =====
-- An event from the point behind its VM exit, or from its first point: what the steps of
-- `fetch_new_event` return.
use rvnsyncpoint.Base.{
  ℕ, suc, ◌≤◌, ◌≡◌, refl, ap, ◌∙◌, sym, ◌⊎◌, inl, inr, true, false, not, ◌==◌, if-both,
  if◌then◌else◌, arith,
}
use rvnsyncpoint.Outcome.{Error, ok}
use rvnsyncpoint.SyncPoint.{SyncPoint, is_interrupt, is_vmenter, valid, is_equivalent}
use rvnsyncpoint.SyncPoint.Equality.{is_equivalent_iff}
use rvnsyncpoint.SyncPoint.Types.{interrupt, vmenter}
use rvnsyncpoint.SyncEvent.{SyncEvent, sync_event, check_sanity}
use rvnsyncpoint.SyncFile.State.{SyncFile, Action, ◌>>◌, pure, throw, lift}
use rvnsyncpoint.SyncFile.Points.{Stack, next}
use rvnsyncpoint.SyncFile.Fetch.{
  point_context_to_event, complete_event, finish_event, after_interrupt, add_blocks, last_event,
  take_interrupt, behind_repeat, behind_interrupt,
}
use rvnsyncpoint.SyncFile.Fetch.Ends.{Ends, ok-Ends, throws-Ends, step_then-Ends, lift_then-Ends}

-- The kind is one of a VM exit.
abbrev pub IsExit : ℕ → Type 0
IsExit type = ((type == interrupt) ≡ false) × ((type == vmenter) ≡ false)

-- An event that is read up to its VM entry, the current point. If an
-- interrupt was injected, then at the address where the machine is entered.
pub record IsComplete (event : SyncEvent) (s : SyncFile) : Type 0 where
  pub is_valid : event.is_valid ≡ true
  pub going : event.is_last_event ≡ false
  pub begins : IsExit event.start_reason
  pub enters : is_vmenter s.current ≡ true
  pub context : event.new_context ≡ point_context_to_event s.current
  pub flags : event.rflags ≡ s.current.rflags
  pub injected : event.has_interrupt ≡ true → event.interrupt_rip ≡ s.current.rip
  pub sane : check_sanity event ≡ ok tt

-- What is known of an event when it begins.
abbrev pub start_of : SyncEvent → SyncEvent
start_of event = record sync_event {
  position = event.position;
  is_first_event_context_unknown = event.is_first_event_context_unknown;
  start_rip = event.start_rip;
  start_context = event.start_context;
  start_reason = event.start_reason;
}

-- At most one call is made, or an interrupt is injected and there are at most three.
abbrev pub IsNear : ℕ → SyncEvent → Type 0
IsNear k event = (k ≤ 1) ⊎ ((event.has_interrupt ≡ true) × (k ≤ 3))

-- `B k start s` is that an event that begins with `start` has begun `k` calls of `next` before `s`.
module _ (B : ℕ → SyncEvent → SyncFile → Type 0) where
  -- No event is left, or it has begun so; then the points ended within the event, or it is complete.
  abbrev pub Fetched : SyncEvent → SyncFile → Type 0
  Fetched event s =
      ((event ≡ sync_event) × (valid s.current ≡ false))
      ⊎ (((k : ℕ) × IsNear k event × B k (start_of event) s)
          × (((event.is_valid ≡ true) × (event.is_last_event ≡ true) × (valid s.current ≡ false))
              ⊎ IsComplete event s))

  -- An event that is being read.
  abbrev pub IsBegun : ℕ → SyncEvent → SyncFile → Type 0
  IsBegun k event s =
      (event.is_last_event ≡ false) × IsExit event.start_reason × B k (start_of event) s

check_sanity-Ends :
    (event : SyncEvent) (s : SyncFile) → Ends (λ _ _. Unit {0}) (check_sanity event, s)
unfolding check_sanity Ends
check_sanity-Ends event s = ground arith

check_sanity-valid :
    (event : SyncEvent) → check_sanity (record event { is_valid = true }) ≡ check_sanity event
unfolding check_sanity
check_sanity-valid event = refl

module _ (stack : Stack) (rounds : ℕ) (B : ℕ → SyncEvent → SyncFile → Type 0)
    (forward : (k : ℕ) (start : SyncEvent) (s t : SyncFile)
      → B k start s
      → next stack rounds s ≡ (ok t.current, t)
      → B (suc k) start t) where
  pub finish_event-Ends :
      (k : ℕ) (event : SyncEvent) (s : SyncFile)
      → IsBegun B k event s
      → IsNear k event
      → (event.has_interrupt ≡ true → event.interrupt_rip ≡ s.current.rip)
      → Ends (Fetched B) (finish_event event s)
  unfolding finish_event
  finish_event-Ends k event s b near i =
      let completed : SyncEvent = complete_event event s.current in
      let finished : Action SyncEvent =
        lift (check_sanity completed) >> pure (record completed { is_valid = true }) in
      if-both (λ m. Ends (Fetched B) (m s)) (not (is_vmenter s.current))
        (throw (Error.exit_without_enter s.position)) finished
        (λ _. throws-Ends (Fetched B) (Error.exit_without_enter s.position) s tt)
        (λ enters.
          lift_then-Ends (Fetched B) (check_sanity completed)
            (λ _. pure (record completed { is_valid = true })) s (check_sanity-Ends completed s)
            (λ _ sane.
              ok-Ends (Fetched B) (record completed { is_valid = true }) s
                (inr (
                  unfold complete_event in (k, near, b.2),
                  inr (
                      unfold complete_event in
                      record {
                        is_valid = refl;
                        going = b.0;
                        begins = b.1;
                        enters = ground arith;
                        context = refl;
                        flags = refl;
                        injected = i;
                        sane = check_sanity-valid completed ∙ sane;
                      }),
                ))))

  after_interrupt-Ends :
      (k : ℕ) (interrupt_sp : SyncPoint) (event : SyncEvent) (s : SyncFile)
      → IsBegun B k event s
      → (event.has_interrupt ≡ true) × (k ≤ 3)
      → event.interrupt_rip ≡ interrupt_sp.rip
      → Ends (Fetched B) (after_interrupt interrupt_sp event s)
  unfolding after_interrupt
  after_interrupt-Ends k interrupt_sp event s b near i =
      if-both (λ m. Ends (Fetched B) (m s)) (not (is_equivalent s.current interrupt_sp))
        (throw (Error.context_mismatch s.position)) (finish_event (add_blocks event s.current))
        (λ _. throws-Ends (Fetched B) (Error.context_mismatch s.position) s tt)
        (λ same.
          let e = (is_equivalent_iff s.current interrupt_sp).0 (ground arith) in
          finish_event-Ends k (add_blocks event s.current) s b (inr near)
            (λ _. i ∙ sym (ap (λ p. p.rip) e)))

  -- The points have ended.
  pub ended-Ends :
      (k : ℕ) (event : SyncEvent) (s : SyncFile)
      → IsBegun B k event s
      → IsNear k event
      → not (valid s.current) ≡ true
      → Ends (Fetched B) (pure (last_event event) s)
  ended-Ends k event s b near h =
      ok-Ends (Fetched B) (last_event event) s
        (inr ((k, near, b.2), inl (refl, refl, ground arith)))

  module _ (event : SyncEvent) (injects : event.has_interrupt ≡ true) where
    behind_repeat-Ends :
        (k : ℕ) (interrupt_sp : SyncPoint) (s : SyncFile)
        → IsBegun B k event s
        → k ≤ 3
        → event.interrupt_rip ≡ interrupt_sp.rip
        → Ends (Fetched B) (behind_repeat interrupt_sp event s)
    unfolding behind_repeat
    behind_repeat-Ends k interrupt_sp s b near i =
        if-both (λ m. Ends (Fetched B) (m s)) (not (valid s.current)) (pure (last_event event))
          (after_interrupt interrupt_sp event) (ended-Ends k event s b (inr (injects, near)))
          (λ _. after_interrupt-Ends k interrupt_sp event s b (injects, near) i)

    behind_interrupt-Ends :
        (k : ℕ) (interrupt_sp : SyncPoint) (s : SyncFile)
        → IsBegun B k event s
        → k ≤ 2
        → event.interrupt_rip ≡ interrupt_sp.rip
        → Ends (Fetched B) (behind_interrupt stack rounds interrupt_sp event s)
    unfolding behind_interrupt
    behind_interrupt-Ends k interrupt_sp s b near i =
        let wide : k ≤ 3 = omega arith in
        let malformed : Action SyncEvent = throw (Error.duplicated_interrupt s.position) in
        let again : Action SyncEvent = next stack rounds >> behind_repeat interrupt_sp event in
        let entered : Action SyncEvent = after_interrupt interrupt_sp event in
        let repeated : Action SyncEvent =
          if not (is_equivalent s.current interrupt_sp) then malformed else again in
        if-both (λ m. Ends (Fetched B) (m s)) (not (valid s.current)) (pure (last_event event))
          (if is_interrupt s.current then repeated else entered)
          (ended-Ends k event s b (inr (injects, wide)))
          (λ _.
            if-both (λ m. Ends (Fetched B) (m s)) (is_interrupt s.current) repeated entered
              (λ _.
                if-both (λ m. Ends (Fetched B) (m s)) (not (is_equivalent s.current interrupt_sp))
                  malformed again
                  (λ _. throws-Ends (Fetched B) (Error.duplicated_interrupt s.position) s tt)
                  (λ _.
                    step_then-Ends (Fetched B) stack rounds (behind_repeat interrupt_sp event) s
                      (λ t e.
                        behind_repeat-Ends (suc k) interrupt_sp t
                          (b.0, b.1, forward k (start_of event) s t b.2 e) (omega arith) i)))
              (λ _. after_interrupt-Ends k interrupt_sp event s b (injects, wide) i))

    pub take_interrupt-Ends :
        (k : ℕ) (s : SyncFile)
        → IsBegun B k event s
        → k ≤ 1
        → event.interrupt_rip ≡ s.current.rip
        → Ends (Fetched B) (take_interrupt stack rounds event s)
    unfolding take_interrupt
    take_interrupt-Ends k s b near i =
        step_then-Ends (Fetched B) stack rounds (behind_interrupt stack rounds s.current event) s
          (λ t e.
            behind_interrupt-Ends (suc k) s.current t
              (b.0, b.1, forward k (start_of event) s t b.2 e) (omega arith) i)
