-- ===== src/SyncFile/Fetch/Ends.antt =====
-- How a call that reads an event ends: `Ends P r` is that the result has the property `P`, with the
-- state behind the call, or that one of the errors of a malformed recording is thrown, or that the
-- rounds are used up.
use rvnsyncpoint.Base.{ℕ, zero, suc, ◌≡◌, refl, sym, ap, if-both, not, ◌&&◌}
use rvnsyncpoint.Outcome.{Outcome, Error, ok, throws, crash, stuck}
use rvnsyncpoint.SyncPoint.{SyncPoint, same_point}
use rvnsyncpoint.SyncFile.State.{SyncFile, Action, ◌>>=◌, ◌>>◌, eof, lift}
use rvnsyncpoint.SyncFile.Points.{Stack, read_point, next_loop, next}
use rvnsyncpoint.SyncFile.Points.Next.{forget_event-current, after_loop}

-- The errors of `fetch_new_event` and `check_sanity`.
abbrev pub IsMalformed : Error → Type 0
IsMalformed (Error.duplicated_interrupt n) = Unit
IsMalformed (Error.context_mismatch n) = Unit
IsMalformed (Error.exit_without_enter n) = Unit
IsMalformed Error.immediate_interrupt = Unit
IsMalformed Error.cr2_change = Unit
IsMalformed Error.late_fault = Unit
IsMalformed _ = ⊥

unfoldable pub Ends : {A : Type 0} → (A → SyncFile → Type 0) → Outcome A × SyncFile → Type 0
Ends P (ok a, s) = P a s
Ends P (throws e, s) = IsMalformed e
Ends P (crash, s) = ⊥
Ends P (stuck, s) = Unit

-- A call that has returned, and one that has thrown.
pub ok-Ends :
    {A : Type 0} (P : A → SyncFile → Type 0) (a : A) (s : SyncFile) → P a s → Ends P (ok a, s)
unfolding Ends
ok-Ends P a s h = h

pub throws-Ends :
    {A : Type 0} (P : A → SyncFile → Type 0) (e : Error) (s : SyncFile)
    → IsMalformed e
    → Ends P (throws e, s)
unfolding Ends
throws-Ends P e s h = h

-- What follows a call starts where the call ended.
pub bind-Ends :
    {A B : Type 0} (P : A → SyncFile → Type 0) (Q : B → SyncFile → Type 0) (m : Action A)
    (k : A → Action B) (s : SyncFile)
    → Ends P (m s)
    → ((a : A) (t : SyncFile) → P a t → Ends Q (k a t))
    → Ends Q ((m >>= k) s)
unfolding Ends
bind-Ends {A = A} P Q m k s h g = bind_result (m s) h
  where
    bind_result :
        (r : Outcome A × SyncFile)
        → Ends P r
        → Ends Q (elim r.0 [
          | ok a ↦ k a r.1
          | throws e ↦ (throws e, r.1)
          | crash ↦ (crash, r.1)
          | stuck ↦ (stuck, r.1)
        ])
    bind_result (ok a, t) p = g a t p
    bind_result (throws e, t) p = p
    bind_result (crash, t) p = p
    bind_result (stuck, t) p = tt

next_loop-Ends :
    (stack : Stack) (rounds : ℕ) (prev : SyncPoint) (s : SyncFile)
    → Ends (λ _ _. Unit {0}) (next_loop stack rounds prev s)
unfolding next_loop Ends
next_loop-Ends stack zero prev s = tt
next_loop-Ends stack (suc rounds) prev s =
    if-both (Ends (λ _ _. Unit {0}))
      (same_point prev (read_point stack s).current && not (eof (read_point stack s))) _
      (ok tt, read_point stack s) (λ _. next_loop-Ends stack rounds prev (read_point stack s))
      (λ _. tt)

after_loop-Ends :
    (r : Outcome (Unit {0}) × SyncFile)
    → Ends (λ _ _. Unit {0}) r
    → Ends (λ p t. p ≡ t.current) (after_loop r)
unfolding Ends
after_loop-Ends (ok _, t) h = sym (forget_event-current t)
after_loop-Ends (throws e, t) h = h
after_loop-Ends (crash, t) h = h
after_loop-Ends (stuck, t) h = tt

-- `next` returns the current point, from every state.
pub next-Ends :
    (stack : Stack) (rounds : ℕ) (s : SyncFile) → Ends (λ p t. p ≡ t.current) (next stack rounds s)
unfolding next Ends
next-Ends stack rounds s =
    if-both (Ends (λ p t. p ≡ t.current)) (eof s) (ok s.current, s)
      (after_loop (next_loop stack rounds s.current s)) (λ _. refl)
      (λ _.
        after_loop-Ends (next_loop stack rounds s.current s)
          (next_loop-Ends stack rounds s.current s))

-- What follows `next` starts in some state, and what follows a check in the same state.
pub next_then-Ends :
    {B : Type 0} (Q : B → SyncFile → Type 0) (stack : Stack) (rounds : ℕ) (k : Action B)
    (s : SyncFile)
    → ((t : SyncFile) → Ends Q (k t))
    → Ends Q ((next stack rounds >> k) s)
next_then-Ends Q stack rounds k s g =
    bind-Ends (λ p t. p ≡ t.current) Q (next stack rounds) (λ _. k) s (next-Ends stack rounds s)
      (λ p t e. g t)

pub lift_then-Ends :
    {A B : Type 0} (Q : B → SyncFile → Type 0) (r : Outcome A) (k : A → Action B) (s : SyncFile)
    → Ends (λ _ _. Unit {0}) (r, s)
    → ((a : A) → r ≡ ok a → Ends Q (k a s))
    → Ends Q ((lift r >>= k) s)
unfolding Ends
lift_then-Ends Q (ok a) k s h g = g a refl
lift_then-Ends Q (throws e) k s h g = h
lift_then-Ends Q crash k s h g = h
lift_then-Ends Q stuck k s h g = tt

-- A call that has ended so has returned what it returned.
pub remember-Ends :
    {A : Type 0} (P : A → SyncFile → Type 0) (r : Outcome A × SyncFile)
    → Ends P r
    → Ends (λ a s. r ≡ (ok a, s)) r
unfolding Ends
remember-Ends P (ok a, s) h = refl
remember-Ends P (throws e, s) h = h
remember-Ends P (crash, s) h = h
remember-Ends P (stuck, s) h = tt

pub weaken-Ends :
    {A : Type 0} (P Q : A → SyncFile → Type 0) (r : Outcome A × SyncFile)
    → ((a : A) (s : SyncFile) → P a s → Q a s)
    → Ends P r
    → Ends Q r
unfolding Ends
weaken-Ends P Q (ok a, s) w h = w a s h
weaken-Ends P Q (throws e, s) w h = h
weaken-Ends P Q (crash, s) w h = h
weaken-Ends P Q (stuck, s) w h = h

-- `next` returns the point of the state that it leaves.
pub next-steps :
    (stack : Stack) (rounds : ℕ) (s : SyncFile)
    → Ends (λ _ t. next stack rounds s ≡ (ok t.current, t)) (next stack rounds s)
unfolding Ends
next-steps stack rounds s = steps (next stack rounds s) (next-Ends stack rounds s)
  where
    steps :
        (r : Outcome SyncPoint × SyncFile)
        → Ends (λ p t. p ≡ t.current) r
        → Ends (λ _ t. r ≡ (ok t.current, t)) r
    steps (ok p, t) h = ap (λ c. (ok c, t)) h
    steps (throws e, t) h = h
    steps (crash, t) h = h
    steps (stuck, t) h = h

-- What follows `next` starts in the state that it leaves.
pub step_then-Ends :
    {B : Type 0} (Q : B → SyncFile → Type 0) (stack : Stack) (rounds : ℕ) (k : Action B)
    (s : SyncFile)
    → ((t : SyncFile) → next stack rounds s ≡ (ok t.current, t) → Ends Q (k t))
    → Ends Q ((next stack rounds >> k) s)
step_then-Ends Q stack rounds k s g =
    bind-Ends (λ _ t. next stack rounds s ≡ (ok t.current, t)) Q (next stack rounds) (λ _. k) s
      (next-steps stack rounds s) (λ _ t e. g t e)
