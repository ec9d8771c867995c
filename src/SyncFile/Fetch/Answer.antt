-- ===== src/SyncFile/Fetch/Answer.antt =====
-- What `fetch_new_event` returns.
use rvnsyncpoint.Base.{
  ℕ, zero, suc, ◌≤◌, ◌≡◌, refl, ◌⊎◌, inl, inr, Bool, true, false, not, if-both, if◌then◌else◌,
  arith,
}
use rvnsyncpoint.SyncPoint.{is_interrupt, is_vmenter, is_vmexit, valid}
use rvnsyncpoint.Outcome.{ok}
use rvnsyncpoint.SyncEvent.{SyncEvent, sync_event}
use rvnsyncpoint.SyncFile.State.{SyncFile, Action, ◌>>=◌, ◌>>◌, pure}
use rvnsyncpoint.SyncFile.Points.{Stack, next}
use rvnsyncpoint.SyncFile.Fetch.{
  point_context_to_event, first_vmexit_missing, find_vmexit, begin_event, finish_event,
  with_interrupt, add_blocks, last_event, take_interrupt, continue_event, read_event,
  fetch_new_event, behind_exit,
}
use rvnsyncpoint.SyncFile.Fetch.Ends.{
  Ends, ok-Ends, bind-Ends, step_then-Ends, weaken-Ends, next-steps,
}
use rvnsyncpoint.SyncFile.Fetch.Steps.{
  Fetched, IsBegun, start_of, finish_event-Ends, ended-Ends, take_interrupt-Ends,
}

-- What is known at the first point, where the VM exit before it is missing, and at a VM exit.
abbrev pub missing_start : SyncFile → SyncEvent
missing_start s = record sync_event { position = s.position; is_first_event_context_unknown = true }

abbrev pub exit_start : SyncFile → SyncEvent
exit_start s = record sync_event {
  position = s.position;
  start_rip = s.current.rip;
  start_context = point_context_to_event s.current;
  start_reason = s.current.type;
}

module _ (stack : Stack) (rounds : ℕ) (B : ℕ → SyncEvent → SyncFile → Type 0)
    (forward : (k : ℕ) (start : SyncEvent) (s t : SyncFile)
      → B k start s
      → next stack rounds s ≡ (ok t.current, t)
      → B (suc k) start t) where
  continue_event-Ends :
      (k : ℕ) (event : SyncEvent) (s : SyncFile)
      → IsBegun B k event s
      → k ≤ 1
      → event.has_interrupt ≡ false
      → Ends (Fetched B) (continue_event stack rounds event s)
  unfolding continue_event
  continue_event-Ends k event s b near i =
      let joined : SyncEvent = add_blocks event s.current in
      if-both (λ m. Ends (Fetched B) (m s)) (is_interrupt s.current)
        (take_interrupt stack rounds (with_interrupt joined s.current)) (finish_event joined)
        (λ _.
          take_interrupt-Ends stack rounds B forward (with_interrupt joined s.current) refl k s b
            near refl)
        (λ _.
          finish_event-Ends stack rounds B forward k joined s b (inl near)
            (λ h. absurd (ground arith)))

  begin_event-IsBegun :
      (first_missing : Bool) (s : SyncFile)
      → ((first_missing ≡ true) × B 0 (missing_start s) s)
        ⊎ ((first_missing ≡ false) × (is_vmexit s.current ≡ true) × B 0 (exit_start s) s)
      → IsBegun B 0 (begin_event first_missing s) s
        × ((begin_event first_missing s).has_interrupt ≡ false)
  unfolding begin_event is_vmexit is_interrupt is_vmenter sync_event
  begin_event-IsBegun first_missing s (inl (missing, b)) =
      rw missing ((refl, (refl, refl), b), refl)
  begin_event-IsBegun first_missing s (inr (there, exit, b)) =
      rw there ((refl, ground (arith, exit), b), refl)

  behind_exit-Ends :
      (k : ℕ) (event : SyncEvent) (s : SyncFile)
      → IsBegun B k event s
      → k ≤ 1
      → event.has_interrupt ≡ false
      → Ends (Fetched B) (behind_exit stack rounds event s)
  unfolding behind_exit
  behind_exit-Ends k event s b near i =
      if-both (λ m. Ends (Fetched B) (m s)) (not (valid s.current)) (pure (last_event event))
        (continue_event stack rounds event)
        (ended-Ends stack rounds B forward k event s b (inl near))
        (λ _. continue_event-Ends k event s b near i)

  read_event-Ends :
      (first_missing : Bool) (s : SyncFile)
      → ((first_missing ≡ true) × B 0 (missing_start s) s)
        ⊎ ((first_missing ≡ false) × (is_vmexit s.current ≡ true) × B 0 (exit_start s) s)
      → Ends (Fetched B) (read_event stack rounds first_missing s)
  unfolding read_event
  read_event-Ends first_missing s h =
      let (b, i) = begin_event-IsBegun first_missing s h in
      let event : SyncEvent = begin_event first_missing s in
      if-both (λ m. Ends (Fetched B) (m s)) (not first_missing)
        (next stack rounds >> behind_exit stack rounds event) (continue_event stack rounds event)
        (λ _. step_then-Ends (Fetched B) stack rounds (behind_exit stack rounds event) s (λ t e.
          behind_exit-Ends 1 event t (b.0, b.1, forward 0 (start_of event) s t b.2 e) (omega arith)
            i))
        (λ _. continue_event-Ends 0 event s b (omega arith) i)

-- `u` is reached from `s` in so many calls of `next`, past points that are no VM exits.
abbrev pub Passes : Stack → ℕ → ℕ → SyncFile → SyncFile → Type 0
Passes stack rounds zero s u = s ≡ u
Passes stack rounds (suc k) s u =
    (is_vmexit s.current ≡ false)
    × ((t : SyncFile) × (next stack rounds s ≡ (ok t.current, t))
        × (valid t.current ≡ true)
        × Passes stack rounds k t u)

-- `u` is at the first VM exit from `s` on.
abbrev pub FirstExit : Stack → ℕ → SyncFile → SyncFile → Type 0
FirstExit stack rounds s u = ((k : ℕ) × Passes stack rounds k s u) × (is_vmexit u.current ≡ true)

-- `t` is the state after so many calls of `next` from `u`.
abbrev pub Steps : Stack → ℕ → ℕ → SyncFile → SyncFile → Type 0
Steps stack rounds zero u t = u ≡ t
Steps stack rounds (suc k) u t =
    (w : SyncFile) × Steps stack rounds k u w × (next stack rounds w ≡ (ok t.current, t))

-- The event that is read from `s` begins with `start`, at the first point or at the first VM exit
-- from `s` on, and `t` is the state after `k` calls of `next` from there.
abbrev pub BeginsAs : Stack → ℕ → SyncFile → ℕ → SyncEvent → SyncFile → Type 0
BeginsAs stack rounds s k start t =
    ((first_vmexit_missing s ≡ true) × (start ≡ missing_start s) × Steps stack rounds k s t)
    ⊎ ((u : SyncFile) × FirstExit stack rounds s u
        × (start ≡ exit_start u)
        × Steps stack rounds k u t)

BeginsAs-forward :
    (stack : Stack) (rounds : ℕ) (from : SyncFile) (k : ℕ) (start : SyncEvent) (s t : SyncFile)
    → BeginsAs stack rounds from k start s
    → next stack rounds s ≡ (ok t.current, t)
    → BeginsAs stack rounds from (suc k) start t
BeginsAs-forward stack rounds from k start s t (inl (missing, begins, steps)) e =
    inl (missing, begins, (s, steps, e))
BeginsAs-forward stack rounds from k start s t (inr (u, first, begins, steps)) e =
    inr (u, first, begins, (s, steps, e))

-- What `fetch_new_event` returns from `s`.
abbrev pub FetchedFrom : Stack → ℕ → SyncFile → SyncEvent → SyncFile → Type 0
FetchedFrom stack rounds s = Fetched (BeginsAs stack rounds s)

-- The search stops there, or where the points have ended.
abbrev Found : Stack → ℕ → SyncFile → Bool → SyncFile → Type 0
Found stack rounds s found u =
    ((found ≡ true) × FirstExit stack rounds s u) ⊎ ((found ≡ false) × (valid u.current ≡ false))

Found-step :
    (stack : Stack) (rounds : ℕ) (s t : SyncFile) (found : Bool) (u : SyncFile)
    → is_vmexit s.current ≡ false
    → next stack rounds s ≡ (ok t.current, t)
    → valid t.current ≡ true
    → Found stack rounds t found u
    → Found stack rounds s found u
Found-step stack rounds s t found u other step good (inl (there, ((k, passed), exit))) =
    inl (there, ((suc k, (other, (t, step, good, passed))), exit))
Found-step stack rounds s t found u other step good (inr none) = inr none

find_vmexit-Ends :
    (stack : Stack) (rounds left : ℕ) (s : SyncFile)
    → Ends (Found stack rounds s) (find_vmexit stack rounds left s)
unfolding find_vmexit
find_vmexit-Ends stack rounds zero s = unfold Ends in tt
find_vmexit-Ends stack rounds (suc left) s =
    let rest : Action Bool = find_vmexit stack rounds left in
    let test : Action Bool = λ t. (if not (valid t.current) then pure false else rest) t in
    let P : Bool → SyncFile → Type 0 = Found stack rounds s in
    if-both (λ m. Ends P (m s)) (is_vmexit s.current) (pure true) (next stack rounds >> test)
      (λ there. ok-Ends P true s (inl (refl, ((0, refl), there))))
      (λ other.
        bind-Ends (λ c t. next stack rounds s ≡ (ok t.current, t)) P (next stack rounds) (λ _. test)
          s (next-steps stack rounds s)
          (λ _ t step.
            if-both (λ m. Ends P (m t)) (not (valid t.current)) (pure false) rest
              (λ h. ok-Ends P false t (inr (refl, ground arith)))
              (λ h.
                weaken-Ends (Found stack rounds t) P (rest t)
                  (λ found u. Found-step stack rounds s t found u other step (ground (arith, h)))
                  (find_vmexit-Ends stack rounds left t))))

pub fetch_new_event-Fetched :
    (stack : Stack) (rounds : ℕ) (s : SyncFile)
    → Ends (FetchedFrom stack rounds s) (fetch_new_event stack rounds s)
unfolding fetch_new_event
fetch_new_event-Fetched stack rounds s =
    let P : SyncEvent → SyncFile → Type 0 = FetchedFrom stack rounds s in
    let B : ℕ → SyncEvent → SyncFile → Type 0 = BeginsAs stack rounds s in
    let found_one : Bool → Action SyncEvent =
      λ found. if found then read_event stack rounds false else pure sync_event in
    if-both (λ m. Ends P (m s)) (first_vmexit_missing s) (read_event stack rounds true)
      (find_vmexit stack rounds rounds >>= found_one)
      (λ missing.
        read_event-Ends stack rounds B (BeginsAs-forward stack rounds s) true s
          (inl (refl, inl (missing, refl, refl))))
      (λ _.
        bind-Ends (Found stack rounds s) P (find_vmexit stack rounds rounds) found_one s
          (find_vmexit-Ends stack rounds rounds s)
          (λ found t f. elim f [
            | inl (there, first) ↦ rw there (
                read_event-Ends stack rounds B (BeginsAs-forward stack rounds s) false t
                  (inr (refl, first.1, inr (t, first, refl, refl))))
            | inr (none, over) ↦ rw none (ok-Ends P sync_event t (inl (refl, over)))
          ]))
