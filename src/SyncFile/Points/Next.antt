-- ===== src/SyncFile/Points/Next.antt =====
-- `next` as a whole: it ends, and it lands on the first record that differs.
use rvnsyncpoint.Base.{
  ℕ, suc, ◌+◌, ◌-◌, ◌*◌, ◌^◌, ◌≤◌, ◌<◌, ◌≡◌, ap, sym, ◌∙◌, ◌⊎◌, inl, inr, true, false, List, length,
  arith,
}
use mathlib.Core.Path.{subst}
use rvnsyncpoint.Outcome.{Outcome, ok, throws, crash, stuck}
use rvnsyncpoint.SyncPoint.{SyncPoint, same_point}
use rvnsyncpoint.SyncEvent.{sync_event}
use rvnsyncpoint.SyncFile.State.{SyncFile, header_size}
use rvnsyncpoint.SyncFile.Points.{Stack, read_point, next_loop, next, forget_event}
use rvnsyncpoint.SyncFile.Points.Rounds.{stride}
use rvnsyncpoint.SyncFile.Points.Landing.{
  IsAt, Shows, Lands, Spent, next_loop-lands, next_loop-suc, Lands-here,
}

-- `next` returns the current point; it has come to a new record, or to the end of the file. No
-- event is kept.
abbrev pub NextLands : List ℕ → ℕ → ℕ → ℕ → SyncPoint → Outcome SyncPoint × SyncFile → Type 0
NextLands bytes v rs n prev (r, s) =
    (r ≡ ok s.current)
    × (((m : ℕ) × Lands bytes v rs n m prev s) ⊎ Spent bytes v rs n prev s)
    × (s.current_event.is_valid ≡ false)

module _ (s : SyncFile) where
  pub forget_event-file : (forget_event s).file ≡ s.file
  unfolding forget_event
  forget_event-file = ground arith

  pub forget_event-version : (forget_event s).version ≡ s.version
  unfolding forget_event
  forget_event-version = ground arith

  pub forget_event-current : (forget_event s).current ≡ s.current
  unfolding forget_event
  forget_event-current = ground arith

  pub forget_event-invalid : (forget_event s).current_event.is_valid ≡ false
  unfolding forget_event sync_event
  forget_event-invalid = ground arith

  forget_event-IsAt :
      (bytes : List ℕ) (v rs n : ℕ) → IsAt bytes v rs n s → IsAt bytes v rs n (forget_event s)
  unfolding forget_event
  forget_event-IsAt bytes v rs n h = ground arith

  forget_event-Lands :
      (bytes : List ℕ) (v rs n m : ℕ) (prev : SyncPoint)
      → Lands bytes v rs n m prev s
      → Lands bytes v rs n m prev (forget_event s)
  forget_event-Lands bytes v rs n m prev l =
      let e : s.current ≡ (forget_event s).current = sym forget_event-current in
      record {
        there = forget_event-IsAt bytes v rs m l.there;
        ahead = l.ahead;
        inside = l.inside;
        shows = subst (Shows bytes v (header_size + rs * (m - 1))) e l.shows;
        fresh = subst (λ c. same_point prev c ≡ false) e l.fresh;
        skipped = l.skipped;
      }

-- What `next` makes of its loop.
abbrev pub after_loop : Outcome (Unit {0}) × SyncFile → Outcome SyncPoint × SyncFile
after_loop (r, s) = elim r [
  | ok _ ↦ (ok s.current, forget_event s)
  | throws e ↦ (throws e, s)
  | crash ↦ (crash, s)
  | stuck ↦ (stuck, s)
]

pub next-going :
    (stack : Stack) (rounds : ℕ) (s : SyncFile)
    → s.file.eof ≡ false
    → next stack rounds s ≡ after_loop (next_loop stack rounds s.current s)
unfolding next
next-going stack rounds s h = ground arith

-- At the end of the file `next` changes nothing.
pub next_at_end :
    (stack : Stack) (rounds : ℕ) (s : SyncFile)
    → s.file.eof ≡ true
    → next stack rounds s ≡ (ok s.current, s)
unfolding next
next_at_end stack rounds s h = ground arith

after_loop-NextLands :
    (bytes : List ℕ) (v rs n : ℕ) (prev : SyncPoint) (r : Outcome (Unit {0})) (s : SyncFile)
    → r ≡ ok tt
    → ((m : ℕ) × Lands bytes v rs n m prev s) ⊎ Spent bytes v rs n prev s
    → NextLands bytes v rs n prev (after_loop (r, s))
after_loop-NextLands bytes v rs n prev r s e (inl (m, l)) = rw e (
  ap ok (sym (forget_event-current s)),
  inl (m, forget_event-Lands s bytes v rs n m prev l),
  forget_event-invalid s,
)
after_loop-NextLands bytes v rs n prev r s e (inr (ended, spent)) = rw e (
  ap ok (sym (forget_event-current s)),
  inr (ap (λ f. f.eof) (forget_event-file s) ∙ ended, spent),
  forget_event-invalid s,
)

-- On a file of records that are as long as the header says, `next` ends and returns the current
-- point; either it has come to the first record behind the position that does not repeat the point
-- before, or every whole record that is left repeats it and the end has been met. No event is kept.
pub next-lands :
    (stack : Stack) (bytes : List ℕ) (v rs rounds n : ℕ) (s : SyncFile)
    → stride v rs ≡ rs
    → length bytes < 2 ^ 63
    → length bytes < rounds
    → IsAt bytes v rs n s
    → NextLands bytes v rs n s.current (next stack rounds s)
next-lands stack bytes v rs rounds n s framed fits enough h =
    let (e, l) =
      next_loop-lands stack bytes v rs fits framed rounds n s.current s h (omega arith) in
    subst (NextLands bytes v rs n s.current)
      (sym (next-going stack rounds s (ap (λ f. f.eof) h.place)))
      (after_loop-NextLands bytes v rs n s.current _ _ e l)

-- A record that is there and differs is read in one round.
pub next-here :
    (stack : Stack) (bytes : List ℕ) (v rs rounds n : ℕ) (s : SyncFile)
    → stride v rs ≡ rs
    → length bytes < 2 ^ 63
    → IsAt bytes v rs n s
    → header_size + rs * n + rs ≤ length bytes
    → same_point s.current (read_point stack s).current ≡ false
    → (next stack (suc rounds) s
        ≡ (ok (read_point stack s).current, forget_event (read_point stack s)))
      × Lands bytes v rs n (suc n) s.current (forget_event (read_point stack s))
next-here stack bytes v rs rounds n s framed fits h more new = (
  next-going stack (suc rounds) s (ap (λ f. f.eof) h.place)
      ∙ ap after_loop (next_loop-suc stack rounds s.current s {b = false} (ground arith)),
  forget_event-Lands (read_point stack s) bytes v rs n (suc n) s.current
      (Lands-here stack bytes v rs fits framed n s.current s h more new),
)
