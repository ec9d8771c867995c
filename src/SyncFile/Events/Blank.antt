-- ===== src/SyncFile/Events/Blank.antt =====
-- What `fetch_new_event` answers where `next` has met the end of a file of whole records: an event
-- without effect, again and again.
use rvnsyncpoint.Base.{
  ℕ, suc, Bool, ◌+◌, ◌*◌, ◌%◌, ◌^◌, ◌<◌, ◌≤◌, ◌≡◌, refl, ap, sym, ◌∙◌, inl, inr, true, false, not,
  ◌==◌, List, length, Bool-cases, if◌then◌else◌, arith,
}
use rvnsyncpoint.Outcome.{ok}
use rvnsyncpoint.Stream.Cursor.{at}
use rvnsyncpoint.SyncPoint.{is_vmexit, valid}
use rvnsyncpoint.SyncEvent.{SyncEvent, context, sync_event, are_values_equivalent}
use rvnsyncpoint.SyncFile.State.{SyncFile, Action, ◌>>=◌, ◌>>◌, pure, bind-ok, header_size, u64_mod}
use rvnsyncpoint.SyncFile.Points.{Stack, read_point, next, forget_event}
use rvnsyncpoint.SyncFile.Points.Rounds.{stride}
use rvnsyncpoint.SyncFile.Points.Landing.{IsAt, next_loop-suc, step-short}
use rvnsyncpoint.SyncFile.Points.Next.{next_at_end, next-going, after_loop}
use rvnsyncpoint.SyncFile.Events.Zeros.{IsZero, read_point-IsZero}
use rvnsyncpoint.SyncFile.Fetch.{
  first_vmexit_missing, find_vmexit, read_event, begin_event, behind_exit, last_event,
  fetch_new_event, continue_event,
}

-- The reader has met the end, behind more than one point, and its point is one of zeros.
pub record IsBlank (s : SyncFile) : Type 0 where
  pub ended : s.file.eof ≡ true
  pub behind : (s.position == 1) ≡ false
  pub point : IsZero s.current

-- An event of zeros without effect.
pub record IsIdle (event : SyncEvent) : Type 0 where
  pub behind : (event.position == 1) ≡ false
  pub no_interrupt : event.has_interrupt ≡ false
  pub not_emulated : event.is_instruction_emulation ≡ false
  pub rip : event.start_rip ≡ 0
  pub new : event.new_context ≡ context
  pub start : are_values_equivalent context event.start_context ≡ true
  pub start_zeros : are_values_equivalent event.start_context context ≡ true

pub sync_event-IsIdle : IsIdle sync_event
unfolding sync_event are_values_equivalent context
sync_event-IsIdle = record {
  behind = refl;
  no_interrupt = refl;
  not_emulated = refl;
  rip = refl;
  new = refl;
  start = refl;
  start_zeros = refl;
}

unfoldable pub blank_event : SyncFile → SyncEvent
blank_event s = if is_vmexit s.current then last_event (begin_event false s) else sync_event

pub blank_event-IsIdle : (s : SyncFile) → IsBlank s → IsIdle (blank_event s)
unfolding blank_event begin_event
blank_event-IsIdle s h = elim (Bool-cases (is_vmexit s.current)) [
  | inl exit ↦ rw exit (record {
    behind = h.behind;
    no_interrupt = sync_event-IsIdle.no_interrupt;
    not_emulated = sync_event-IsIdle.not_emulated;
    rip = h.point.rip;
    new = sync_event-IsIdle.new;
    start = h.point.registers;
    start_zeros = h.point.zeros;
  })
  | inr none ↦ rw none sync_event-IsIdle
]

pub blank_invalid : (s : SyncFile) → IsBlank s → valid s.current ≡ false
unfolding valid
blank_invalid s h = rw h.point.no_time refl

module _ (stack : Stack) (rounds : ℕ) where
  -- The search for a VM exit, from a point that is none and before one that is not valid.
  pub find_vmexit-none :
      (left : ℕ) (s s' : SyncFile)
      → is_vmexit s.current ≡ false
      → next stack rounds s ≡ (ok s'.current, s')
      → valid s'.current ≡ false
      → find_vmexit stack rounds (suc left) s ≡ (ok false, s')
  unfolding find_vmexit
  find_vmexit-none left s s' other step bad =
      let rest : Action Bool = find_vmexit stack rounds left in
      let look : Action Bool = λ t. (if not (valid t.current) then pure false else rest) t in
      ap (λ b. (if b then pure true else (next stack rounds >> look)) s) other
      ∙ (bind-ok (next stack rounds) (λ _. look) s s'.current s' step
          ∙ ap (λ b. (if not b then pure false else rest) s') bad)

  find_vmexit-here :
      (left : ℕ) (s : SyncFile)
      → is_vmexit s.current ≡ true
      → find_vmexit stack rounds (suc left) s ≡ (ok true, s)
  unfolding find_vmexit
  find_vmexit-here left s exit =
      let rest : Action Bool = find_vmexit stack rounds left in
      let look : Action Bool = λ t. (if not (valid t.current) then pure false else rest) t in
      ap (λ b. (if b then pure true else (next stack rounds >> look)) s) exit

  -- At a VM exit that is the last point.
  read_event-last :
      (s : SyncFile)
      → next stack rounds s ≡ (ok s.current, s)
      → valid s.current ≡ false
      → read_event stack rounds false s ≡ (ok (last_event (begin_event false s)), s)
  unfolding read_event behind_exit
  read_event-last s step bad =
      let event : SyncEvent = begin_event false s in
      bind-ok (next stack rounds) (λ _. behind_exit stack rounds event) s s.current s step
      ∙ ap (λ b. (if not b then pure (last_event event) else continue_event stack rounds event) s)
          bad

  pub fetch_new_event-found :
      (s s' : SyncFile) (found : Bool)
      → first_vmexit_missing s ≡ false
      → find_vmexit stack rounds rounds s ≡ (ok found, s')
      → fetch_new_event stack rounds s
        ≡ (if found then read_event stack rounds false else pure sync_event) s'
  unfolding fetch_new_event
  fetch_new_event-found s s' found there e =
      let found_one : Bool → Action SyncEvent =
        λ found. if found then read_event stack rounds false else pure sync_event in
      ap
        (λ b.
          (if b
              then read_event stack rounds true
              else (find_vmexit stack rounds rounds >>= found_one))
            s)
        there
      ∙ bind-ok (find_vmexit stack rounds rounds) found_one s found s' e

pub not_first : (s : SyncFile) → (s.position == 1) ≡ false → first_vmexit_missing s ≡ false
unfolding first_vmexit_missing
not_first s h = ground arith

-- Behind the end `fetch_new_event` changes nothing.
pub fetch_new_event-blank :
    (stack : Stack) (rounds : ℕ) (s : SyncFile)
    → IsBlank s
    → fetch_new_event stack (suc rounds) s ≡ (ok (blank_event s), s)
unfolding blank_event
fetch_new_event-blank stack rounds s h =
    let step = next_at_end stack (suc rounds) s h.ended in
    let bad : valid s.current ≡ false = blank_invalid s h in
    let there = not_first s h.behind in
    elim (Bool-cases (is_vmexit s.current)) [
      | inl exit ↦
          fetch_new_event-found stack (suc rounds) s s true there
            (find_vmexit-here stack (suc rounds) rounds s exit)
          ∙ (read_event-last stack (suc rounds) s step bad ∙ rw exit refl)
      | inr none ↦
          fetch_new_event-found stack (suc rounds) s s false there
            (find_vmexit-none stack (suc rounds) rounds s s none step bad)
          ∙ rw none refl
    ]

forget_event-none : (s : SyncFile) → s.current_event.is_valid ≡ false → forget_event s ≡ s
unfolding forget_event
forget_event-none s h = ap (λ b. if b then record s { current_event = sync_event } else s) h

read_point-ended :
    (stack : Stack) (s : SyncFile)
    → (read_point stack s).file.eof ≡ true
    → (read_point stack s).position ≡ s.position
unfolding read_point
read_point-ended stack s h = ap (λ b. if not b then (s.position + 1) % u64_mod else s.position) h

-- Behind the last record `next` reads a point of zeros and stays at its position.
pub next-IsBlank :
    (stack : Stack) (bytes : List ℕ) (v rs rounds n : ℕ) (s : SyncFile)
    → stride v rs ≡ rs
    → length bytes < 2 ^ 63
    → IsAt bytes v rs n s
    → length bytes ≡ header_size + rs * n
    → (s.position == 1) ≡ false
    → s.current_event.is_valid ≡ false
    → (next stack (suc rounds) s ≡ (ok (read_point stack s).current, read_point stack s))
      × IsBlank (read_point stack s)
next-IsBlank stack bytes v rs rounds n s framed fits h l behind no_event =
    let s' : SyncFile = read_point stack s in
    let wide : 80 ≤ rs = ground arith in
    let ended : s'.file.eof ≡ true = step-short stack bytes v rs fits framed n s h (omega arith) in
    (
      next-going stack (suc rounds) s (ap (λ f. f.eof) h.place)
          ∙ (ap after_loop (next_loop-suc stack rounds s.current s {b = false} (ground arith))
              ∙ ap (λ t. (ok s'.current, t))
                  (forget_event-none s' (unfold read_point in no_event))),
      record {
        ended = ended;
        behind = ap (λ k. k == 1) (read_point-ended stack s ended) ∙ behind;
        point = read_point-IsZero stack s bytes (h.place ∙ ap (at bytes) (sym l));
      },
    )

-- At the last record `fetch_new_event` finds no event.
pub fetch_new_event-none :
    (stack : Stack) (bytes : List ℕ) (v rs rounds n : ℕ) (s : SyncFile)
    → stride v rs ≡ rs
    → length bytes < 2 ^ 63
    → IsAt bytes v rs n s
    → length bytes ≡ header_size + rs * n
    → (n == 1) ≡ false
    → is_vmexit s.current ≡ false
    → s.current_event.is_valid ≡ false
    → (fetch_new_event stack (suc rounds) s ≡ (ok sync_event, read_point stack s))
      × IsBlank (read_point stack s)
fetch_new_event-none stack bytes v rs rounds n s framed fits h l behind other no_event =
    let s' : SyncFile = read_point stack s in
    let later : (s.position == 1) ≡ false = ap (λ k. k == 1) h.position ∙ behind in
    let (step, blank) = next-IsBlank stack bytes v rs rounds n s framed fits h l later no_event in
    (
      fetch_new_event-found stack (suc rounds) s s' false (not_first s later)
          (find_vmexit-none stack (suc rounds) rounds s s' other step (blank_invalid s' blank)),
      blank,
    )
