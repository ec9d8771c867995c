-- ===== src/SyncFile/Fetch/Returns.antt =====
-- In a file of whole records `fetch_new_event` ends: its steps behind the search for a VM exit.
use rvnsyncpoint.Base.{
  ℕ, ◌+◌, ◌*◌, ◌^◌, ◌<◌, ◌≡◌, inl, Bool, true, false, not, List, length, if-both, if◌then◌else◌,
  arith,
}
use rvnsyncpoint.Outcome.{Error}
use rvnsyncpoint.SyncPoint.{SyncPoint, is_interrupt, is_vmenter, valid, is_equivalent}
use rvnsyncpoint.SyncEvent.{SyncEvent, sync_event, check_sanity}
use rvnsyncpoint.SyncFile.State.{SyncFile, Action, ◌>>=◌, ◌>>◌, pure, throw, lift, header_size}
use rvnsyncpoint.SyncFile.Points.{Stack, next}
use rvnsyncpoint.SyncFile.Points.Rounds.{stride}
use rvnsyncpoint.SyncFile.Points.Landing.{IsAt}
use rvnsyncpoint.SyncFile.Fetch.{
  complete_event, finish_event, after_interrupt, add_blocks, last_event, with_interrupt,
  begin_event, take_interrupt, behind_repeat, behind_interrupt, continue_event, behind_exit,
  read_event, find_vmexit, first_vmexit_missing, fetch_new_event,
}
use rvnsyncpoint.SyncFile.Fetch.Stops.{
  Stops, bind-Stops, IsReady, find_vmexit-Stops, next_then-Stops, records_le,
}

check_sanity-Stops :
    (Q : SyncFile → Type 0) (event : SyncEvent) (s : SyncFile)
    → Q s
    → Stops Q (check_sanity event, s)
unfolding check_sanity Stops
check_sanity-Stops Q event s h = ground (arith, h)

-- The steps that read no point.
module _ (Q : SyncFile → Type 0) where
  finish_event-Stops : (event : SyncEvent) (s : SyncFile) → Q s → Stops Q (finish_event event s)
  unfolding finish_event
  finish_event-Stops event s h =
      let completed : SyncEvent = complete_event event s.current in
      let finished : Action SyncEvent =
        lift (check_sanity completed) >> pure (record completed { is_valid = true }) in
      if-both (λ m. Stops Q (m s)) (not (is_vmenter s.current))
        (throw (Error.exit_without_enter s.position)) finished (λ _. unfold Stops in h)
        (λ _.
          bind-Stops Q Q (lift (check_sanity completed))
            (λ _. pure (record completed { is_valid = true })) s
            (check_sanity-Stops Q completed s h) (λ t p. p) (λ _ t p. unfold Stops in p))

  after_interrupt-Stops :
      (interrupt_sp : SyncPoint) (event : SyncEvent) (s : SyncFile)
      → Q s
      → Stops Q (after_interrupt interrupt_sp event s)
  unfolding after_interrupt
  after_interrupt-Stops interrupt_sp event s h =
      if-both (λ m. Stops Q (m s)) (not (is_equivalent s.current interrupt_sp))
        (throw (Error.context_mismatch s.position)) (finish_event (add_blocks event s.current))
        (λ _. unfold Stops in h) (λ _. finish_event-Stops (add_blocks event s.current) s h)

  behind_repeat-Stops :
      (interrupt_sp : SyncPoint) (event : SyncEvent) (s : SyncFile)
      → Q s
      → Stops Q (behind_repeat interrupt_sp event s)
  unfolding behind_repeat
  behind_repeat-Stops interrupt_sp event s h =
      if-both (λ m. Stops Q (m s)) (not (valid s.current)) (pure (last_event event))
        (after_interrupt interrupt_sp event) (λ _. unfold Stops in h)
        (λ _. after_interrupt-Stops interrupt_sp event s h)

module _ (stack : Stack) (bytes : List ℕ) (v rs rounds : ℕ) (framed : stride v rs ≡ rs)
    (fits : length bytes < 2 ^ 63) (enough : length bytes < rounds) (j : ℕ) where
  abbrev Ready : SyncFile → Type 0
  Ready = IsReady stack bytes v rs rounds framed fits enough j

  behind_interrupt-Stops :
      (interrupt_sp : SyncPoint) (event : SyncEvent) (s : SyncFile)
      → Ready s
      → Stops Ready (behind_interrupt stack rounds interrupt_sp event s)
  unfolding behind_interrupt
  behind_interrupt-Stops interrupt_sp event s h =
      let malformed : Action SyncEvent = throw (Error.duplicated_interrupt s.position) in
      let again : Action SyncEvent = next stack rounds >> behind_repeat interrupt_sp event in
      let entered : Action SyncEvent = after_interrupt interrupt_sp event in
      let repeated : Action SyncEvent =
        if not (is_equivalent s.current interrupt_sp) then malformed else again in
      if-both (λ m. Stops Ready (m s)) (not (valid s.current)) (pure (last_event event))
        (if is_interrupt s.current then repeated else entered) (λ _. unfold Stops in h)
        (λ _.
          if-both (λ m. Stops Ready (m s)) (is_interrupt s.current) repeated entered
            (λ _.
              if-both (λ m. Stops Ready (m s)) (not (is_equivalent s.current interrupt_sp))
                malformed again (λ _. unfold Stops in h)
                (λ _.
                  next_then-Stops stack bytes v rs rounds framed fits enough j
                    (behind_repeat interrupt_sp event) s h
                    (behind_repeat-Stops Ready interrupt_sp event)))
            (λ _. after_interrupt-Stops Ready interrupt_sp event s h))

  continue_event-Stops :
      (event : SyncEvent) (s : SyncFile)
      → Ready s
      → Stops Ready (continue_event stack rounds event s)
  unfolding continue_event take_interrupt
  continue_event-Stops event s h =
      let added : SyncEvent = add_blocks event s.current in
      if-both (λ m. Stops Ready (m s)) (is_interrupt s.current)
        (take_interrupt stack rounds (with_interrupt added s.current)) (finish_event added)
        (λ _.
          next_then-Stops stack bytes v rs rounds framed fits enough j
            (behind_interrupt stack rounds s.current (with_interrupt added s.current)) s h
            (behind_interrupt-Stops s.current (with_interrupt added s.current)))
        (λ _. finish_event-Stops Ready added s h)

  behind_exit-Stops :
      (event : SyncEvent) (s : SyncFile) → Ready s → Stops Ready (behind_exit stack rounds event s)
  unfolding behind_exit
  behind_exit-Stops event s h =
      if-both (λ m. Stops Ready (m s)) (not (valid s.current)) (pure (last_event event))
        (continue_event stack rounds event) (λ _. unfold Stops in h)
        (λ _. continue_event-Stops event s h)

  read_event-Stops :
      (first_missing : Bool) (s : SyncFile)
      → Ready s
      → Stops Ready (read_event stack rounds first_missing s)
  unfolding read_event
  read_event-Stops first_missing s h =
      let event : SyncEvent = begin_event first_missing s in
      if-both (λ m. Stops Ready (m s)) (not first_missing)
        (next stack rounds >> behind_exit stack rounds event) (continue_event stack rounds event)
        (λ _.
          next_then-Stops stack bytes v rs rounds framed fits enough j
            (behind_exit stack rounds event) s h (behind_exit-Stops event))
        (λ _. continue_event-Stops event s h)

  fetch_from-Stops :
      (s : SyncFile) → j < rounds → Ready s → Stops Ready (fetch_new_event stack rounds s)
  unfolding fetch_new_event
  fetch_from-Stops s l h =
      let found_one : Bool → Action SyncEvent =
        λ found. if found then read_event stack rounds false else pure sync_event in
      if-both (λ m. Stops Ready (m s)) (first_vmexit_missing s) (read_event stack rounds true)
        (find_vmexit stack rounds rounds >>= found_one) (λ _. read_event-Stops true s h)
        (λ _.
          bind-Stops Ready Ready (find_vmexit stack rounds rounds) found_one s
            (find_vmexit-Stops stack bytes v rs rounds framed fits enough rounds j s l h) (λ t p. p)
            (λ found t p.
              if-both (λ m. Stops Ready (m t)) found (read_event stack rounds false)
                (pure sync_event) (λ _. read_event-Stops false t p) (λ _. unfold Stops in p)))

-- From every record of a file of whole records, with more rounds than the file has bytes,
-- `fetch_new_event` ends, in an event or with an exception. Then the reader is at a record with no
-- more records left than before, or it has met the end and the point is not valid.
pub fetch_new_event-Stops :
    (stack : Stack) (bytes : List ℕ) (v rs rounds n j : ℕ) (s : SyncFile)
    (framed : stride v rs ≡ rs) (fits : length bytes < 2 ^ 63) (enough : length bytes < rounds)
    → IsAt bytes v rs n s
    → length bytes ≡ header_size + rs * n + rs * j
    → Stops (IsReady stack bytes v rs rounds framed fits enough j) (fetch_new_event stack rounds s)
fetch_new_event-Stops stack bytes v rs rounds n j s framed fits enough h l =
    fetch_from-Stops stack bytes v rs rounds framed fits enough j s
      (omega (arith, records_le stack bytes v rs rounds framed fits enough j, l, enough))
      (inl (j, omega arith, (n, h, l)))
